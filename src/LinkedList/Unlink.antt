-- ===== src/LinkedList/Unlink.antt =====
-- `UnLinkFromLinkedList` takes a node out of its list.
use mmotcpfighter.Base.{
  ◌≡◌, ◌≢◌, refl, sym, ap, ◌∙◌, false, List, [], ◌∷◌, ◌++◌, arith, ok, ne→not_==, ==_refl,
  append-nil, fun_ext,
}
use mmotcpfighter.LinkedList.{
  Ptr, null, Node, node, Heap, Ends, ends, write, check_prev, unlink_prev, unlink_next, unlink,
  clear_links,
}
use mmotcpfighter.LinkedList.Chain.{
  has, first, last, Chain, IsList, Apart, SameOutside, has-append, last-append, Chain-write,
  Chain-split, Chain-join, last-mem, last-ne-null, last_links, eq_false_of_has, Chain-set_next,
  Chain-set_prev, Apart-mem, Apart-tail, Apart-out,
}

-- The state of the list before, between and after the steps, about the victim `p`: the nodes `ys` in
-- front of it and `zs` behind it.
record Around (h : Heap) (p : Ptr) (ys zs : List Ptr) (after before : Ptr) : Type 0 where
  ne : p ≢ null
  holds : h p ≡ node (first zs null) (last ys null)
  front : Chain h null ys after
  back : Chain h before zs null
  out_front : has p ys ≡ false
  out_back : has p zs ≡ false
  apart : Apart ys zs

Around-IsList :
    {h : Heap} {e : Ends} (p : Ptr) (ys zs : List Ptr)
    → IsList h e (ys ++ (p ∷ zs))
    → Around h p ys zs p p
Around-IsList {h} p ys zs is =
    let (c, (ne, holds, out, d), apart) = Chain-split h null ys (p ∷ zs) null is.chain in
    record {
      ne = ne;
      holds = holds;
      front = c;
      back = d;
      out_front = Apart-mem ys (p ∷ zs) p apart (ground arith);
      out_back = out;
      apart = Apart-tail ys p zs apart;
    }

-- The check of the predecessor passes.
check_prev-ok :
    (h : Heap) (p : Ptr) (ys zs : List Ptr) → Around h p ys zs p p → check_prev h p ≡ ok tt
unfolding check_prev
check_prev-ok h p [] zs a = rw (ne→not_== p null a.ne, a.holds, ==_refl p)
check_prev-ok h p (y ∷ ys) zs a = rw (
  ne→not_== p null a.ne,
  a.holds,
  ne→not_== (last ys y) null (last-ne-null h null y ys p a.front),
  last_links h null y ys p a.front,
  ==_refl p,
)

-- After the first step the nodes in front lead past the victim.
unlink_prev-Around :
    (h : Heap) (t p : Ptr) (ys zs : List Ptr)
    → Around h p ys zs p p
    → (h' : Heap) × (unlink_prev h (ends (first (ys ++ (p ∷ zs)) null) t) p
        ≡ ok (h', ends (first (ys ++ zs) null) t))
      × Around h' p ys zs (first zs null) p
      × SameOutside ys h h'
unfolding unlink_prev
unlink_prev-Around h t p [] zs a = (
  h,
  rw (ne→not_== p null a.ne, a.holds, ==_refl p),
  record {
    ne = a.ne;
    holds = a.holds;
    front = tt;
    back = a.back;
    out_front = refl;
    out_back = a.out_back;
    apart = tt;
  },
  λ b out. refl,
)
unlink_prev-Around h t p (y ∷ ys) zs a =
    let q : Ptr = last ys y in
    let n : Node = record (h q) { next = first zs null } in
    let in_ys = last-mem ys y in
    (
      write h q n,
      rw (ne→not_== p null a.ne, a.holds, ne→not_== q null (last-ne-null h null y ys p a.front)),
      record {
        ne = a.ne;
        holds = unfold write in rw (eq_false_of_has p q (y ∷ ys) a.out_front in_ys) a.holds;
        front = Chain-set_next h null y ys p (first zs null) a.front;
        back = Chain-write h p zs null q n a.back (Apart-out (y ∷ ys) zs q a.apart in_ys);
        out_front = a.out_front;
        out_back = a.out_back;
        apart = a.apart;
      },
      λ b out. unfold write in rw (eq_false_of_has b q (y ∷ ys) out in_ys),
    )

-- After the second the nodes behind lead past it too.
unlink_next-Around :
    (h : Heap) (t p : Ptr) (ys zs : List Ptr)
    → t ≡ last (ys ++ (p ∷ zs)) null
    → Around h p ys zs (first zs null) p
    → (h' : Heap) × (unlink_next h (ends (first (ys ++ zs) null) t) p
        ≡ ok (h', ends (first (ys ++ zs) null) (last (ys ++ zs) null)))
      × Around h' p ys zs (first zs null) (last ys null)
      × SameOutside zs h h'
unfolding unlink_next
unlink_next-Around h t p ys [] e a = (
  h,
  rw (ne→not_== p null a.ne, a.holds, append-nil ys),
  record {
    ne = a.ne;
    holds = a.holds;
    front = a.front;
    back = tt;
    out_front = a.out_front;
    out_back = refl;
    apart = a.apart;
  },
  λ b out. refl,
)
unlink_next-Around h t p ys (z ∷ zs) e a =
    let n : Node = record (h z) { prev = last ys null } in
    let at_end : t ≡ last (ys ++ (z ∷ zs)) null =
      e ∙ last-append ys (p ∷ z ∷ zs) null ∙ sym (last-append ys (z ∷ zs) null) in
    let out_z : has z ys ≡ false = Apart-mem ys (z ∷ zs) z a.apart (ground arith) in
    (
      write h z n,
      rw (ne→not_== p null a.ne, a.holds, ne→not_== z null a.back.0, at_end),
      record {
        ne = a.ne;
        holds = unfold write in ground (arith, a.holds, a.out_back);
        front = Chain-write h null ys z z n a.front out_z;
        back = Chain-set_prev h p (last ys null) z zs null a.back;
        out_front = a.out_front;
        out_back = a.out_back;
        apart = a.apart;
      },
      λ b out. unfold write in ground arith,
    )

-- With both done, what is written to the victim itself does not touch the list.
Around-clear :
    (h : Heap) (p : Ptr) (ys zs : List Ptr) (n : Node)
    → Around h p ys zs (first zs null) (last ys null)
    → Chain (write h p n) null (ys ++ zs) null
Around-clear h p ys zs n a =
    Chain-join (write h p n) null ys zs null
      (Chain-write h null ys (first zs null) p n a.front a.out_front)
      (Chain-write h (last ys null) zs null p n a.back a.out_back) a.apart

write-write : (h : Heap) (p : Ptr) (m n : Node) → write (write h p m) p n ≡ write h p n
unfolding write
write-write h p m n = fun_ext (λ a. ground arith)

write_self : (h : Heap) (p : Ptr) (n : Node) → write h p n p ≡ n
unfolding write
write_self h p n = rw (==_refl p)

-- The last two writes clear the links of the victim.
clear_links_lem :
    (h : Heap) (e : Ends) (p : Ptr)
    → p ≢ null
    → clear_links h e p ≡ ok (write h p (node null null), e)
unfolding clear_links
clear_links_lem h e p ne = rw (ne→not_== p null ne, write_self, write-write)

-- `UnLinkFromLinkedList`, on a node of a list, passes its check, takes the node out and leaves the
-- others in their order, clears the links of the node, and changes no node outside the list.
pub unlink_lem :
    (h : Heap) (e : Ends) (p : Ptr) (ys zs : List Ptr)
    → IsList h e (ys ++ (p ∷ zs))
    → (h' : Heap) × (e' : Ends) × (unlink h e p ≡ ok (h', e'))
      × IsList h' e' (ys ++ zs)
      × (h' p ≡ node null null)
      × SameOutside (ys ++ (p ∷ zs)) h h'
unfolding unlink
unlink_lem h e p ys zs is =
    let a = Around-IsList p ys zs is in
    let (h₁, e₁, a₁, s₁) = unlink_prev-Around h e.tail p ys zs a in
    let start = ap (λ t. unlink_prev h (ends t e.tail) p) is.head_first ∙ e₁ in
    let (h₂, e₂, a₂, s₂) = unlink_next-Around h₁ e.tail p ys zs is.tail_last a₁ in
    (
      write h₂ p (node null null),
      ends (first (ys ++ zs) null) (last (ys ++ zs) null),
      rw (check_prev-ok h p ys zs a, start, e₂) (clear_links_lem h₂ _ p a.ne),
      record {
        head_first = refl;
        tail_last = refl;
        chain = Around-clear h₂ p ys zs (node null null) a₂;
      },
      unfold write in rw (==_refl p),
      λ b out. unfold write in ground (arith, has-append b ys (p ∷ zs), s₁ b, s₂ b),
    )
