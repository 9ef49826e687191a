-- ===== src/LinkedList/Chain.antt =====
-- What a doubly linked list stands for: the list of its nodes' pointers, first to last.
use mmotcpfighter.Base.{
  ◌≡◌, ◌≢◌, refl, Bool, true, false, ◌||◌, List, [], ◌∷◌, ◌++◌, ◌==◌, arith, ap, sym, ◌∙◌,
  Bool-cases, inl, inr,
}
use mmotcpfighter.LinkedList.{Ptr, null, Node, node, Heap, Ends, write}

abbrev pub has : Ptr → List Ptr → Bool
has a [] = false
has a (p ∷ xs) = (a == p) || has a xs

-- The first pointer of a list, or else `d`; the last one, or else `d`.
abbrev pub first : List Ptr → Ptr → Ptr
first [] d = d
first (p ∷ _) d = p

abbrev pub last : List Ptr → Ptr → Ptr
last [] d = d
last (p ∷ xs) d = last xs p

-- The nodes of `xs` are distinct and linked to one another in that order, both ways; in front of
-- them stands `b`, and behind them `a`.
abbrev pub Chain : Heap → Ptr → List Ptr → Ptr → Type 0
Chain h b [] a = Unit {0}
Chain h b (p ∷ xs) a =
    (p ≢ null) × (h p ≡ node (first xs a) b) × (has p xs ≡ false) × Chain h p xs a

pub record IsList (h : Heap) (e : Ends) (xs : List Ptr) : Type 0 where
  pub head_first : e.head ≡ first xs null
  pub tail_last : e.tail ≡ last xs null
  pub chain : Chain h null xs null

-- No pointer of `xs` is in `ys`.
abbrev pub Apart : List Ptr → List Ptr → Type 0
Apart [] ys = Unit {0}
Apart (p ∷ xs) ys = (has p ys ≡ false) × Apart xs ys

-- The heap `g` is `h` outside the nodes of `xs`.
abbrev pub SameOutside : List Ptr → Heap → Heap → Type 0
SameOutside xs h g = (a : Ptr) → has a xs ≡ false → g a ≡ h a

pub has-append : (p : Ptr) (xs ys : List Ptr) → has p (xs ++ ys) ≡ (has p xs || has p ys)
has-append p [] ys = refl
has-append p (x ∷ xs) ys = ground (arith, has-append p xs ys)

pub first-append : (xs ys : List Ptr) (d : Ptr) → first (xs ++ ys) d ≡ first xs (first ys d)
first-append [] ys d = refl
first-append (x ∷ xs) ys d = refl

pub last-append : (xs ys : List Ptr) (d : Ptr) → last (xs ++ ys) d ≡ last ys (last xs d)
last-append [] ys d = refl
last-append (x ∷ xs) ys d = last-append xs ys x

-- A write outside the chain leaves it alone.
pub Chain-write :
    (h : Heap) (b : Ptr) (xs : List Ptr) (a p : Ptr) (n : Node)
    → Chain h b xs a
    → has p xs ≡ false
    → Chain (write h p n) b xs a
unfolding write
Chain-write h b [] a p n c out = tt
Chain-write h b (x ∷ xs) a p n (ne, holds, new, rest) out =
    (ne, ground arith, new, Chain-write h x xs a p n rest (ground arith))

-- A chain of two parts is a chain of each, and the parts are apart; and back.
pub Chain-split :
    (h : Heap) (b : Ptr) (xs ys : List Ptr) (a : Ptr)
    → Chain h b (xs ++ ys) a
    → Chain h b xs (first ys a) × Chain h (last xs b) ys a × Apart xs ys
Chain-split h b [] ys a c = (tt, c, tt)
Chain-split h b (x ∷ xs) ys a (ne, holds, new, rest) =
    let (c, d, apart) = Chain-split h x xs ys a rest in
    (
      (
        ne,
        rw holds (ap (λ t. node t b) (first-append xs ys a)),
        ground (arith, has-append x xs ys),
        c,
      ),
      d,
      (ground (arith, has-append x xs ys), apart),
    )

pub Chain-join :
    (h : Heap) (b : Ptr) (xs ys : List Ptr) (a : Ptr)
    → Chain h b xs (first ys a)
    → Chain h (last xs b) ys a
    → Apart xs ys
    → Chain h b (xs ++ ys) a
Chain-join h b [] ys a c d apart = d
Chain-join h b (x ∷ xs) ys a (ne, holds, new, rest) d (out, apart) = (
  ne,
  rw holds (ap (λ t. node t b) (sym (first-append xs ys a))),
  rw (has-append x xs ys, new, out),
  Chain-join h x xs ys a rest d apart,
)

-- The last node of a chain, if there is one, is one of it, and its links are known.
pub last-mem : (xs : List Ptr) (x : Ptr) → has (last xs x) (x ∷ xs) ≡ true
last-mem [] x = ground arith
last-mem (y ∷ xs) x = ground (arith, last-mem xs y)

pub eq_false_of_has :
    (x p : Ptr) (zs : List Ptr) → has x zs ≡ false → has p zs ≡ true → (x == p) ≡ false
eq_false_of_has x p zs out in_zs = elim (Bool-cases (x == p)) [
  | inr ne ↦ ne
  | inl eq ↦ let e : x ≡ p = ground arith in let bad : true ≡ false = sym in_zs ∙ rw e at out in cc
]

-- A write that gives the last node another successor moves the end of the chain.
pub Chain-set_next :
    (h : Heap) (b x : Ptr) (xs : List Ptr) (a a' : Ptr)
    → Chain h b (x ∷ xs) a
    → Chain (write h (last xs x) (record (h (last xs x)) { next = a' })) b (x ∷ xs) a'
unfolding write
Chain-set_next h b x [] a a' (ne, holds, new, rest) = (ne, ground arith, refl, tt)
Chain-set_next h b x (y ∷ xs) a a' (ne, holds, new, rest) = (
  ne,
  rw (eq_false_of_has x (last xs y) (y ∷ xs) new (last-mem xs y)) holds,
  new,
  Chain-set_next h x y xs a a' rest,
)

-- A write that gives the first node another predecessor moves the start of the chain.
pub Chain-set_prev :
    (h : Heap) (b b' x : Ptr) (xs : List Ptr) (a : Ptr)
    → Chain h b (x ∷ xs) a
    → Chain (write h x (record (h x) { prev = b' })) b' (x ∷ xs) a
unfolding write
Chain-set_prev h b b' x xs a (ne, holds, new, rest) =
    (ne, ground arith, new, Chain-write h x xs a x _ rest new)

pub last-ne-null :
    (h : Heap) (b x : Ptr) (xs : List Ptr) (a : Ptr) → Chain h b (x ∷ xs) a → last xs x ≢ null
last-ne-null h b x [] a c = c.0
last-ne-null h b x (y ∷ xs) a c = last-ne-null h x y xs a c.3

-- What the first node of a chain, and the last, hold.
pub last_links :
    (h : Heap) (b x : Ptr) (xs : List Ptr) (a : Ptr)
    → Chain h b (x ∷ xs) a
    → (h (last xs x)).next ≡ a
last_links h b x [] a c = ap (λ (n : Node). n.next) c.1
last_links h b x (y ∷ xs) a c = last_links h x y xs a c.3

pub Apart-singleton : (xs : List Ptr) (p : Ptr) → has p xs ≡ false → Apart xs (p ∷ [])
Apart-singleton [] p out = tt
Apart-singleton (x ∷ xs) p out = (ground arith, Apart-singleton xs p (ground arith))

-- A pointer of `ys` is not in a list apart from it.
pub Apart-mem : (xs ys : List Ptr) (q : Ptr) → Apart xs ys → has q ys ≡ true → has q xs ≡ false
Apart-mem [] ys q apart in_ys = refl
Apart-mem (x ∷ xs) ys q (out, apart) in_ys =
    let ne : (x == q) ≡ false = eq_false_of_has x q ys out in_ys in
    let ne' : (q == x) ≡ false = ground arith in rw (ne', Apart-mem xs ys q apart in_ys)

pub Apart-tail : (xs : List Ptr) (y : Ptr) (ys : List Ptr) → Apart xs (y ∷ ys) → Apart xs ys
Apart-tail [] y ys apart = tt
Apart-tail (x ∷ xs) y ys (out, apart) = (ground arith, Apart-tail xs y ys apart)

pub Apart-out : (xs ys : List Ptr) (q : Ptr) → Apart xs ys → has q xs ≡ true → has q ys ≡ false
Apart-out xs ys q apart in_xs = elim (Bool-cases (has q ys)) [
  | inr out ↦ out
  | inl in_ys ↦ let e : true ≡ false = sym in_xs ∙ Apart-mem xs ys q apart in_ys in cc
]
