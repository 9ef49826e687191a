-- ===== src/LinkedList/Link.antt =====
-- `LinkToLinkedListFirst` and `LinkToLinkedListLast` put a node in front of a list, or behind it.
use mmotcpfighter.Base.{
  ◌≡◌, ◌≢◌, refl, sym, false, List, [], ◌∷◌, ◌++◌, ◌==◌, arith, Outcome, ok, ne→not_==, ==_refl,
}
use mmotcpfighter.LinkedList.{
  Ptr, null, node, Heap, Ends, ends, write, link_first, link_last, link_only, link_before,
  link_behind,
}
use mmotcpfighter.LinkedList.Chain.{
  has, last, Chain, IsList, SameOutside, last-append, Chain-write, Chain-join, last-mem,
  last-ne-null, Apart-singleton, eq_false_of_has, Chain-set_next, Chain-set_prev,
}

-- The result is a list of `ys`, and every node outside `touched` is as it was.
abbrev pub Relinked : Heap → List Ptr → List Ptr → Outcome (Heap × Ends) → Type 0
Relinked h touched ys r =
    (h' : Heap) × (e' : Ends) × (r ≡ ok (h', e')) × IsList h' e' ys × SameOutside touched h h'

link_only-Relinked :
    (h : Heap) (new : Ptr) → new ≢ null → Relinked h (new ∷ []) (new ∷ []) (link_only h new)
unfolding link_only write
link_only-Relinked h new ne =
    let test : (new == null) ≡ false = ground arith in
    (
      write (write h new (node null (h new).prev)) new (node null null),
      ends new new,
      rw test (ground arith),
      record { head_first = refl; tail_last = refl; chain = (ne, ground arith, refl, tt) },
      λ a out. ground arith,
    )

module _ (h : Heap) (new x : Ptr) (xs : List Ptr) (ne : new ≢ null) (out : has new (x ∷ xs) ≡ false)
    (c : Chain h null (x ∷ xs) null) where
  link_before-Relinked :
      (t : Ptr)
      → t ≡ last xs x
      → Relinked h (new ∷ x ∷ xs) (new ∷ x ∷ xs) (link_before h (ends x t) new)
  unfolding link_before
  link_before-Relinked t e =
      let g₁ : Heap = write h new (node x (h new).prev) in
      let g₂ : Heap = write g₁ x (record (g₁ x) { prev = new }) in
      let g₃ : Heap = write g₂ new (record (g₂ new) { prev = null }) in
      let c₁ = Chain-write h null (x ∷ xs) null new (node x (h new).prev) c out in
      let c₂ = Chain-set_prev g₁ null new x xs null c₁ in
      (
        g₃,
        ends new t,
        rw (ne→not_== new null ne, ne→not_== x null c.0),
        record {
          head_first = refl;
          tail_last = e;
          chain = (
            ne,
            unfold write in ground arith,
            out,
            Chain-write g₂ new (x ∷ xs) null new (record (g₂ new) { prev = null }) c₂ out,
          );
        },
        λ a o. unfold write in ground arith,
      )

  link_behind-Relinked :
      Relinked h (new ∷ x ∷ xs) ((x ∷ xs) ++ (new ∷ [])) (link_behind h (ends x (last xs x)) new)
  unfolding link_behind
  link_behind-Relinked =
      let t : Ptr = last xs x in
      let g₁ : Heap = write h new (record (h new) { prev = t }) in
      let g₂ : Heap = write g₁ t (record (g₁ t) { next = new }) in
      let g₃ : Heap = write g₂ new (record (g₂ new) { next = null }) in
      let c₁ = Chain-write h null (x ∷ xs) null new (record (h new) { prev = t }) c out in
      let c₂ = Chain-set_next g₁ null x xs null new c₁ in
      let c₃ = Chain-write g₂ null (x ∷ xs) new new (record (g₂ new) { next = null }) c₂ out in
      let ne_t : (new == t) ≡ false = eq_false_of_has new t (x ∷ xs) out (last-mem xs x) in
      let holds : g₃ new ≡ node null t = unfold write in rw (==_refl new, ne_t) in
      (
        g₃,
        ends x new,
        rw (ne→not_== new null ne, ne→not_== t null (last-ne-null h null x xs null c)),
        record {
          head_first = refl;
          tail_last = sym (last-append xs (new ∷ []) x);
          chain =
              Chain-join g₃ null (x ∷ xs) (new ∷ []) null c₃ (ne, holds, refl, tt)
                (Apart-singleton (x ∷ xs) new out);
        },
        λ a away.
            let ne_a : (a == t) ≡ false =
              eq_false_of_has a t (x ∷ xs) (ground arith) (last-mem xs x) in
            let ne_new : (a == new) ≡ false = ground arith in unfold write in rw (ne_new, ne_a),
      )

-- `LinkToLinkedListLast`, given a node that is not in the list, puts it behind the others, and
-- changes no node but that one and those of the list.
pub link_last_lem :
    (h : Heap) (e : Ends) (new : Ptr) (xs : List Ptr)
    → IsList h e xs
    → new ≢ null
    → has new xs ≡ false
    → Relinked h (new ∷ xs) (xs ++ (new ∷ [])) (link_last h e new)
unfolding link_last
link_last_lem h e new [] is ne out = rw (is.head_first) (link_only-Relinked h new ne)
link_last_lem h e new (x ∷ xs) is ne out =
    rw (is.head_first, ne→not_== x null is.chain.0, is.tail_last)
      (link_behind-Relinked h new x xs ne out is.chain)

-- `LinkToLinkedListFirst` puts it in front.
pub link_first_lem :
    (h : Heap) (e : Ends) (new : Ptr) (xs : List Ptr)
    → IsList h e xs
    → new ≢ null
    → has new xs ≡ false
    → Relinked h (new ∷ xs) (new ∷ xs) (link_first h e new)
unfolding link_first
link_first_lem h e new [] is ne out = rw (is.head_first) (link_only-Relinked h new ne)
link_first_lem h e new (x ∷ xs) is ne out =
    rw (is.head_first, ne→not_== x null is.chain.0)
      (link_before-Relinked h new x xs ne out is.chain e.tail is.tail_last)
