-- ===== src/Ring/Fifo/Enqueue.antt =====
-- `Enqueue` as one or two copies behind the bytes in use.
use mmotcpfighter.Base.{
  ℕ, ◌+◌, ◌-◌, ◌%◌, ◌≤◌, ◌<◌, ◌≡◌, ap₂, ◌++◌, append_assoc, tabulate_add, tabulate_ext, arith, leb,
  ok, Bool-cases, inl, inr, leb→le,
}
use mmotcpfighter.Memory.{Block, copy, bytes}
use mmotcpfighter.Memory.Laws.{memcpy-ok, bytes_split}
use mmotcpfighter.Ring.{
  Ring, actual_size, move_pos, get_use_size, get_free_size, direct_enqueue_size, enqueue,
}
use mmotcpfighter.Ring.Valid.{IsValid, contents}

-- The ring after one copy of `m` bytes of `src`, from offset `s` on, to its write position.
abbrev pub put_copy : Ring → Block → ℕ → ℕ → Ring
put_copy r src s m = record r {
  buffer = copy r.buffer r.in_pos src s m;
  in_pos = move_pos r.in_pos m;
}

module _ {r : Ring} (src : Block) (s m : ℕ) (v : IsValid r) (fits : m ≤ direct_enqueue_size r) where
  put_copy-IsValid : IsValid (put_copy r src s m)
  put_copy-IsValid = record { in_range = omega arith; out_range = v.out_range; whole = v.whole }

  in_pos_fits : r.in_pos + m ≤ r.buffer.size
  unfolding direct_enqueue_size
  in_pos_fits = ground arith

  use_size-put_copy : get_use_size (put_copy r src s m) ≡ get_use_size r + m
  unfolding get_use_size direct_enqueue_size
  use_size-put_copy = ground arith

  old_byte :
      (k : ℕ)
      → k < get_use_size r
      → (put_copy r src s m).buffer.byte ((r.out_pos + k) % actual_size)
        ≡ r.buffer.byte ((r.out_pos + k) % actual_size)
  unfolding get_use_size direct_enqueue_size
  old_byte k lt = ground arith

  new_byte :
      (k : ℕ)
      → k < m
      → (put_copy r src s m).buffer.byte ((r.out_pos + (get_use_size r + k)) % actual_size)
        ≡ src.byte (s + k)
  unfolding get_use_size direct_enqueue_size
  new_byte k lt = ground arith

  contents-put_copy : contents (put_copy r src s m) ≡ contents r ++ bytes src s m
  contents-put_copy =
      rw (use_size-put_copy, tabulate_add (get_use_size r) m)
        (ap₂ ◌++◌ (tabulate_ext (get_use_size r) _ _ old_byte) (tabulate_ext m _ _ new_byte))

-- What an accepted `enqueue` leaves behind.
pub record Put (r : Ring) (src : Block) (s n : ℕ) (r' : Ring) : Type 0 where
  pub valid : IsValid r'
  pub appended : contents r' ≡ contents r ++ bytes src s n

put_copy-Put :
    {r : Ring} (src : Block) (s m : ℕ)
    → IsValid r
    → m ≤ direct_enqueue_size r
    → Put r src s m (put_copy r src s m)
put_copy-Put src s m v fits = record {
  valid = put_copy-IsValid src s m v fits;
  appended = contents-put_copy src s m v fits;
}

Put-trans :
    {r₁ r₂ r₃ : Ring} (src : Block) (s m n t : ℕ)
    → t ≡ s + m
    → Put r₁ src s m r₂
    → Put r₂ src t n r₃
    → Put r₁ src s (m + n) r₃
Put-trans src s m n t e p q = record {
  valid = q.valid;
  appended = rw (q.appended, p.appended, append_assoc, e, bytes_split src s m n);
}

module _ {r : Ring} (src : Block) (n : ℕ) (v : IsValid r) (there : n ≤ src.size)
    (room : n ≤ get_free_size r) where
  -- In one go.
  enqueue_once : n ≤ direct_enqueue_size r → enqueue r src n ≡ ok (n, put_copy r src 0 n)
  unfolding enqueue
  enqueue_once fits =
      ground (arith, memcpy-ok r.buffer r.in_pos src 0 n (in_pos_fits src 0 n v fits))

  -- In two: up to the end of the buffer, and on from its start.
  abbrev full : Ring
  full = put_copy r src 0 (direct_enqueue_size r)

  abbrev left : ℕ
  left = n - direct_enqueue_size r

  full-IsValid : IsValid full
  full-IsValid = put_copy-IsValid src 0 (direct_enqueue_size r) v (omega arith)

  left_fits : direct_enqueue_size r < n → left ≤ direct_enqueue_size full
  unfolding get_free_size get_use_size direct_enqueue_size
  left_fits h = ground arith

  enqueue_twice :
      direct_enqueue_size r < n
      → enqueue r src n ≡ ok (n, put_copy full src (direct_enqueue_size r) left)
  unfolding enqueue
  enqueue_twice h =
      let first = direct_enqueue_size r in
      ground (
        arith,
        memcpy-ok r.buffer r.in_pos src 0 first (in_pos_fits src 0 first v (omega arith))
            (omega arith),
        memcpy-ok full.buffer full.in_pos src first left
            (in_pos_fits src first left full-IsValid (left_fits h)) (omega arith),
      )

-- A source that holds the bytes, and room for them: `enqueue` takes all of them, behind the others.
pub enqueue-Put :
    {r : Ring} (src : Block) (n : ℕ)
    → IsValid r
    → n ≤ src.size
    → n ≤ get_free_size r
    → (r' : Ring) × (enqueue r src n ≡ ok (n, r')) × Put r src 0 n r'
enqueue-Put {r} src n v there room = elim (Bool-cases (leb n (direct_enqueue_size r))) [
  | inl fits ↦ (
    put_copy r src 0 n,
    enqueue_once src n v there room (leb→le _ _ fits),
    put_copy-Put src 0 n v (leb→le _ _ fits),
  )
  | inr over ↦
      let lt : direct_enqueue_size r < n = ground arith in
      let first = direct_enqueue_size r in
      let sum : (first + (n - first)) ≡ n = omega arith in
      (
        put_copy (full src n v there room) src first (n - first),
        enqueue_twice src n v there room lt,
        rw sum at (
            Put-trans src 0 first (n - first) first (omega arith)
              (put_copy-Put src 0 first v (omega arith))
              (put_copy-Put src first (n - first) (full-IsValid src n v there room)
                (left_fits src n v there room lt))),
      )
]
