-- ===== src/Serial/Read.antt =====
-- `operator >>`: a read takes the value at the front, or throws where there is too little to read.
use native.Mathlib.Nat.{pow-suc}
use mmotcpfighter.Base.{
  ℕ, zero, suc, ◌+◌, ◌-◌, ◌/◌, ◌^◌, ◌≤◌, ◌<◌, ◌≡◌, ap, sym, List, ◌++◌, length, take, drop, ltb,
  arith, ok, err, thrown, tabulate_ext, length-append, take_of_append, drop_of_append, Bool-cases,
  inl, inr, ◌⊎◌, ltb→lt, lt→ltb, le→not_ltb, false,
}
use mmotcpfighter.Memory.{new_block, bytes}
use mmotcpfighter.Memory.Laws.{memcpy-ok, bytes_split, length-bytes}
use mmotcpfighter.Serial.{SerializeBuffer, le_bytes, of_le_bytes, read_value, less_than_sizeof}
use mmotcpfighter.Serial.Valid.{IsValid, unread}
use mmotcpfighter.Serial.Write.{length-le_bytes}

-- Digits and back.
pub of_le_bytes-le_bytes : (w v : ℕ) → v < 256 ^ w → of_le_bytes (le_bytes w v) ≡ v
unfolding le_bytes of_le_bytes
of_le_bytes-le_bytes zero v h = omega arith
of_le_bytes-le_bytes (suc w) v h =
    rw (of_le_bytes-le_bytes w (v / 256) (omega (arith, pow-suc 256 w))) (omega arith)

unread_test :
    {sb : SerializeBuffer} (w : ℕ)
    → IsValid sb
    → less_than_sizeof sb.rear sb.front w ≡ ltb sb.rear (sb.front + w)
unread_test w v = ground arith

module _ {sb : SerializeBuffer} (w : ℕ) (v : IsValid sb) where
  abbrev after : SerializeBuffer
  after = record sb { front = sb.front + w }

  read_value-ok :
      sb.front + w ≤ sb.rear
      → read_value w sb ≡ ok (of_le_bytes (bytes sb.buffer sb.front w), after)
  unfolding read_value
  read_value-ok h =
      rw
        (
          unread_test w v,
          le→not_ltb _ _ h,
          memcpy-ok (new_block w) 0 sb.buffer sb.front w (omega arith) (omega arith),
        )
        (ap (λ xs. ok (of_le_bytes xs, after)) (tabulate_ext w _ _ (λ k lt. ground arith)))

  read_value_thrown : sb.rear < sb.front + w → read_value w sb ≡ err thrown
  unfolding read_value
  read_value_thrown h = rw (unread_test w v, lt→ltb _ _ h)

  unread-split : sb.front + w ≤ sb.rear → unread sb ≡ bytes sb.buffer sb.front w ++ unread after
  unread-split h =
      let e : (sb.rear - sb.front) ≡ (w + (sb.rear - (sb.front + w))) = omega arith in
      rw e (sym (bytes_split sb.buffer sb.front w (sb.rear - (sb.front + w))))

  after-IsValid : sb.front + w ≤ sb.rear → IsValid after
  after-IsValid h = record {
    whole = v.whole;
    bounded = v.bounded;
    front_in = h;
    rear_in = v.rear_in;
  }

  length-unread : length (unread sb) ≡ sb.rear - sb.front
  length-unread = length-bytes sb.buffer sb.front (sb.rear - sb.front)

  -- `>>` on a valid buffer throws exactly where fewer than `w` bytes are left to read. Otherwise it
  -- yields the value of the next `w` bytes, little endian, and leaves a valid buffer with the rest.
  pub read_value_lem :
      (length (unread sb) < w) × (read_value w sb ≡ err thrown)
      ⊎ (w ≤ length (unread sb))
        × ((sb' : SerializeBuffer) × (read_value w sb ≡ ok (of_le_bytes (take w (unread sb)), sb'))
            × IsValid sb'
            × (unread sb' ≡ drop w (unread sb)))
  read_value_lem = elim (Bool-cases (ltb sb.rear (sb.front + w))) [
    | inl short ↦
        let h = ltb→lt _ _ short in
        let l = length-unread in let f = v.front_in in inl (omega arith, read_value_thrown h)
    | inr there ↦
        let h : sb.front + w ≤ sb.rear = ground arith in
        let l = length-unread in
        let n = length-bytes sb.buffer sb.front w in
        inr (
          omega arith,
          (
            after,
            rw (unread-split h, take_of_append w (bytes sb.buffer sb.front w) (unread after) n)
                (read_value-ok h),
            after-IsValid h,
            rw (unread-split h)
                (sym (drop_of_append w (bytes sb.buffer sb.front w) (unread after) n)),
          ),
        )
  ]

-- What was written is read back: where the bytes of a value of the width are next, `>>` yields the
-- value and leaves what follows them.
pub read_value-le_bytes :
    {sb : SerializeBuffer} (w value : ℕ) (rest : List ℕ)
    → IsValid sb
    → value < 256 ^ w
    → unread sb ≡ le_bytes w value ++ rest
    → (sb' : SerializeBuffer) × (read_value w sb ≡ ok (value, sb'))
      × IsValid sb'
      × (unread sb' ≡ rest)
read_value-le_bytes {sb} w value rest v small e =
    let n = length-le_bytes w value in
    let l = ap length e in
    elim (read_value_lem w v) [
      | inl (short, _) ↦ absurd (omega (arith, length-append (le_bytes w value) rest))
      | inr (_, (sb', r, v', u)) ↦ (
        sb',
        rw (r, e, take_of_append w (le_bytes w value) rest n, of_le_bytes-le_bytes w value small),
        v',
        rw (u, e) (drop_of_append w (le_bytes w value) rest n),
      )
    ]

-- With the read position past the write position nothing is left to read, but `>>` does not throw:
-- the difference of the two is negative, and as a `size_t` it is larger than the value's size.
pub read_value_past_rear :
    (sb : SerializeBuffer) (w : ℕ)
    → sb.rear < sb.front
    → sb.front < 2 ^ 31
    → w ≤ 8
    → sb.front + w ≤ sb.buffer.size
    → read_value w sb
      ≡ ok (of_le_bytes (bytes sb.buffer sb.front w), record sb { front = sb.front + w })
unfolding read_value
read_value_past_rear sb w past small narrow there =
    let test : less_than_sizeof sb.rear sb.front w ≡ false = ground arith in
    rw (test, memcpy-ok (new_block w) 0 sb.buffer sb.front w (omega arith) (omega arith))
      (ap (λ xs. ok (of_le_bytes xs, record sb { front = sb.front + w }))
        (tabulate_ext w _ _ (λ k lt. ground arith)))
