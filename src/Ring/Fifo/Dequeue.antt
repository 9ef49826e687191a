-- ===== src/Ring/Fifo/Dequeue.antt =====
-- `Dequeue` and `Peek` as one or two copies of the oldest bytes.
use mmotcpfighter.Base.{
  ℕ, ◌+◌, ◌-◌, ◌%◌, ◌≤◌, ◌<◌, ◌≡◌, ap₂, ◌∙◌, ◌++◌, append_assoc, tabulate_add, tabulate_ext, arith,
  leb, ok, Bool-cases, inl, inr, leb→le, ◌⊎◌, refl, subst,
}
use mmotcpfighter.Memory.{Block, copy, bytes}
use mmotcpfighter.Memory.Laws.{memcpy-ok, bytes_split}
use mmotcpfighter.Ring.{
  Ring, actual_size, move_pos, get_use_size, direct_dequeue_size, dequeue, peek,
}
use mmotcpfighter.Ring.Valid.{IsValid, contents}

-- The ring without its `m` oldest bytes.
abbrev pub drop_front : Ring → ℕ → Ring
drop_front r m = record r { out_pos = move_pos r.out_pos m }

-- The target with the `m` bytes from the read position, from offset `d` on.
abbrev pub got_copy : Ring → Block → ℕ → ℕ → Block
got_copy r dest d m = copy dest d r.buffer r.out_pos m

-- The `m` oldest bytes of `r` stand at offset `d` of `dest'`, which is `dest` elsewhere, and `r'`
-- holds the rest.
pub record Got (r : Ring) (dest : Block) (d m : ℕ) (r' : Ring) (dest' : Block) : Type 0 where
  pub valid : IsValid r'
  pub split : contents r ≡ bytes dest' d m ++ contents r'
  pub same : (i : ℕ) → (i < d) ⊎ (d + m ≤ i) → dest'.byte i ≡ dest.byte i
  pub same_size : dest'.size ≡ dest.size

module _ {r : Ring} (dest : Block) (d m : ℕ) (v : IsValid r)
    (fits : m ≤ direct_dequeue_size r) where
  drop_front-IsValid : IsValid (drop_front r m)
  drop_front-IsValid = record { in_range = v.in_range; out_range = omega arith; whole = v.whole }

  out_pos_fits : r.out_pos + m ≤ r.buffer.size
  unfolding direct_dequeue_size
  out_pos_fits = ground arith

  use_size-drop_front : get_use_size r ≡ m + get_use_size (drop_front r m)
  unfolding get_use_size direct_dequeue_size
  use_size-drop_front = ground arith

  front_byte :
      (k : ℕ)
      → k < m
      → r.buffer.byte ((r.out_pos + k) % actual_size) ≡ (got_copy r dest d m).byte (d + k)
  unfolding direct_dequeue_size
  front_byte k lt = ground arith

  back_byte :
      (k : ℕ)
      → k < get_use_size (drop_front r m)
      → r.buffer.byte ((r.out_pos + (m + k)) % actual_size)
        ≡ r.buffer.byte ((move_pos r.out_pos m + k) % actual_size)
  unfolding get_use_size direct_dequeue_size
  back_byte k lt = ground arith

  contents-drop_front : contents r ≡ bytes (got_copy r dest d m) d m ++ contents (drop_front r m)
  contents-drop_front =
      rw (use_size-drop_front, tabulate_add m)
        (ap₂ ◌++◌ (tabulate_ext m _ _ front_byte)
          (tabulate_ext (get_use_size (drop_front r m)) _ _ back_byte))

  got_copy-Got : Got r dest d m (drop_front r m) (got_copy r dest d m)
  got_copy-Got = record {
    valid = drop_front-IsValid;
    split = contents-drop_front;
    same = λ i out. ground arith;
    same_size = refl;
  }

Got-trans :
    {r₁ r₂ r₃ : Ring} {a b c : Block} (d m n t : ℕ)
    → t ≡ d + m
    → Got r₁ a d m r₂ b
    → Got r₂ b t n r₃ c
    → Got r₁ a d (m + n) r₃ c
Got-trans {c} d m n t e p q = record {
  valid = q.valid;
  split = rw (
    p.split,
    q.split,
    ← append_assoc,
    ← tabulate_ext m (λ k. c.byte (d + k)) _ (λ k lt. q.same (d + k) (inl (omega arith))),
    e,
    bytes_split c d m n,
  );
  same = λ i out. q.same i (omega arith) ∙ p.same i (omega arith);
  same_size = q.same_size ∙ p.same_size;
}

module _ {r : Ring} (dest : Block) (n : ℕ) (v : IsValid r) (there : n ≤ dest.size)
    (filled : n ≤ get_use_size r) where
  -- In one go.
  dequeue_once :
      n ≤ direct_dequeue_size r → dequeue r dest n ≡ ok (n, drop_front r n, got_copy r dest 0 n)
  unfolding dequeue
  dequeue_once fits =
      ground
        (arith, memcpy-ok dest 0 r.buffer r.out_pos n (omega arith) (out_pos_fits dest 0 n v fits))

  peek_once : n ≤ direct_dequeue_size r → peek r dest n ≡ ok (n, got_copy r dest 0 n)
  unfolding peek
  peek_once fits =
      ground
        (arith, memcpy-ok dest 0 r.buffer r.out_pos n (omega arith) (out_pos_fits dest 0 n v fits))

  abbrev first : ℕ
  first = direct_dequeue_size r

  abbrev rest : Ring
  rest = drop_front r first

  abbrev half : Block
  half = got_copy r dest 0 first

  rest-IsValid : IsValid rest
  rest-IsValid = drop_front-IsValid dest 0 first v (omega arith)

  rest_fits : first < n → n - first ≤ direct_dequeue_size rest
  unfolding get_use_size direct_dequeue_size
  rest_fits h = ground arith

  dequeue_twice :
      first < n
      → dequeue r dest n ≡ ok (n, drop_front rest (n - first), got_copy rest half first (n - first))
  unfolding dequeue
  dequeue_twice h = ground (
    arith,
    memcpy-ok dest 0 r.buffer r.out_pos first (omega arith)
        (out_pos_fits dest 0 first v (omega arith)),
    memcpy-ok half first rest.buffer rest.out_pos (n - first) (omega arith)
        (out_pos_fits half first (n - first) rest-IsValid (rest_fits h)),
  )

  -- `Peek` reads on from the start of the buffer, which is where the read position would be.
  rest_start : first < n → rest.out_pos ≡ 0
  unfolding get_use_size direct_dequeue_size
  rest_start h = ground arith

  peek_twice : first < n → peek r dest n ≡ ok (n, got_copy rest half first (n - first))
  unfolding peek
  peek_twice h = ground (
    arith,
    rest_start h,
    memcpy-ok dest 0 r.buffer r.out_pos first (omega arith)
        (out_pos_fits dest 0 first v (omega arith)),
    memcpy-ok half first rest.buffer rest.out_pos (n - first) (omega arith)
        (out_pos_fits half first (n - first) rest-IsValid (rest_fits h)),
  )

  twice-Got :
      first < n
      → Got r dest 0 n (drop_front rest (n - first)) (got_copy rest half first (n - first))
  twice-Got h =
      let sum : (first + (n - first)) ≡ n = omega arith in
      subst
        (λ t. Got r dest 0 t (drop_front rest (n - first)) (got_copy rest half first (n - first)))
        sum
        (Got-trans 0 first (n - first) first (omega arith)
          (got_copy-Got dest 0 first v (omega arith))
          (got_copy-Got half first (n - first) rest-IsValid (rest_fits h)))

  -- A target with space for the bytes, and as many in use: `dequeue` and `peek` find the oldest.
  pub dequeue-Got :
      (r' : Ring) × (d : Block) × (dequeue r dest n ≡ ok (n, r', d))
      × (peek r dest n ≡ ok (n, d))
      × Got r dest 0 n r' d
  dequeue-Got = elim (Bool-cases (leb n first)) [
    | inl fits ↦ (
      drop_front r n,
      got_copy r dest 0 n,
      dequeue_once (leb→le _ _ fits),
      peek_once (leb→le _ _ fits),
      got_copy-Got dest 0 n v (leb→le _ _ fits),
    )
    | inr over ↦
        let h : first < n = ground arith in
        (
          drop_front rest (n - first),
          got_copy rest half first (n - first),
          dequeue_twice h,
          peek_twice h,
          twice-Got h,
        )
  ]
