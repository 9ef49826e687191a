-- ===== src/Serial/Write.antt =====
-- `Resize` and `operator <<`: a write appends the bytes of the value, after making room where it
-- has to, or throws where the room cannot be made.
use mmotcpfighter.Base.{
  out_of_bounds, leb, false, ℕ, zero, suc, ◌+◌, ◌*◌, ◌/◌, ◌≤◌, ◌<◌, ◌≡◌, refl, ap, ap₂, ◌∙◌, sym,
  List, ◌++◌, length, ltb, arith, ok, err, thrown, tabulate_add, tabulate_ext, get_or,
  tabulate-get_or, length-append, append_assoc, append-nil, Bool-cases, inl, inr, ltb→lt, lt→ltb,
  le→not_ltb, if◌then◌else◌, ◌⊎◌, [],
}
use mmotcpfighter.Memory.{memcpy, new_block, copy, of_list}
use mmotcpfighter.Memory.Laws.{memcpy-ok}
use mmotcpfighter.Serial.{
  SerializeBuffer, ringbuffer_size, resize, le_bytes, write_value, less_than_sizeof,
}
use mmotcpfighter.Serial.Valid.{IsValid, written, Wrote}

pub length-le_bytes : (w v : ℕ) → length (le_bytes w v) ≡ w
unfolding le_bytes
length-le_bytes zero v = refl
length-le_bytes (suc w) v = ap suc (length-le_bytes w (v / 256))

module _ {sb : SerializeBuffer} (v : IsValid sb) where
  -- The buffer after a copy of `xs` to its end.
  abbrev pub put_bytes : List ℕ → SerializeBuffer
  put_bytes xs = record sb {
    buffer = copy sb.buffer sb.rear (of_list xs) 0 (length xs);
    rear = sb.rear + length xs;
  }

  pub put_bytes-Wrote :
      (xs : List ℕ) → sb.rear + length xs ≤ sb.buffer_size → Wrote sb xs (put_bytes xs)
  put_bytes-Wrote xs room = record {
    valid = record { whole = v.whole; bounded = v.bounded; front_in = omega arith; rear_in = room };
    appended =
        tabulate_add sb.rear (length xs) _
        ∙ ap₂ ◌++◌ (tabulate_ext sb.rear _ _ (λ k lt. ground arith)) (
            tabulate_ext (length xs) _ (λ k. get_or xs k 0) (λ k lt. ground arith)
            ∙ tabulate-get_or xs 0);
    rear_moved = refl;
    front_kept = refl;
  }

  -- The same buffer in a block of twice the size.
  abbrev grown : SerializeBuffer
  grown = record sb {
    buffer = copy (new_block (sb.buffer_size * 2)) 0 sb.buffer 0 sb.buffer_size;
    buffer_size = sb.buffer_size * 2;
  }

  resize-grown : sb.buffer_size * 2 ≤ ringbuffer_size → resize sb ≡ ok grown
  unfolding resize
  resize-grown h = ground (
    arith,
    memcpy-ok (new_block (sb.buffer_size * 2)) 0 sb.buffer 0 sb.buffer_size (omega arith)
        (omega arith),
  )

  grown-IsValid : sb.buffer_size * 2 ≤ ringbuffer_size → IsValid grown
  grown-IsValid h = record {
    whole = refl;
    bounded = h;
    front_in = v.front_in;
    rear_in = omega arith;
  }

  written-grown : written grown ≡ written sb
  written-grown = tabulate_ext sb.rear _ _ (λ k lt. ground arith)

resize_thrown :
    (sb : SerializeBuffer) → ringbuffer_size < sb.buffer_size * 2 → resize sb ≡ err thrown
unfolding resize
resize_thrown sb h = ground arith

-- `Resize` doubles a valid buffer and keeps all that was written, or throws where the double is
-- more than `RINGBUFFER_SIZE`.
pub resize_lem :
    {sb : SerializeBuffer}
    → IsValid sb
    → (ringbuffer_size < sb.buffer_size * 2) × (resize sb ≡ err thrown)
      ⊎ ((sb' : SerializeBuffer) × (resize sb ≡ ok sb')
          × (sb'.buffer_size ≡ sb.buffer_size * 2)
          × Wrote sb [] sb')
resize_lem {sb} v = elim (Bool-cases (ltb ringbuffer_size (sb.buffer_size * 2))) [
  | inl over ↦ inl (ltb→lt _ _ over, resize_thrown sb (ltb→lt _ _ over))
  | inr fits ↦
      let h : sb.buffer_size * 2 ≤ ringbuffer_size = ground arith in
      inr (
        grown v,
        resize-grown v h,
        refl,
        record {
          valid = grown-IsValid v h;
          appended = written-grown v ∙ sym (append-nil _);
          rear_moved = omega arith;
          front_kept = refl;
        },
      )
]

-- The test of `operator <<` on a valid buffer.
room_test :
    {sb : SerializeBuffer} (w : ℕ)
    → IsValid sb
    → less_than_sizeof sb.buffer_size sb.rear w ≡ ltb sb.buffer_size (sb.rear + w)
room_test w v = ground arith

-- With room for it, a value is written in place.
pub write_value_room :
    {sb : SerializeBuffer} (w value : ℕ)
    → IsValid sb
    → sb.rear + w ≤ sb.buffer_size
    → (sb' : SerializeBuffer) × (write_value w value sb ≡ ok sb')
      × (sb'.buffer_size ≡ sb.buffer_size)
      × Wrote sb (le_bytes w value) sb'
unfolding write_value
write_value_room {sb} w value v room =
    let n = length-le_bytes w value in
    (
      put_bytes v (le_bytes w value),
      rw (
        room_test w v,
        le→not_ltb _ _ room,
        memcpy-ok sb.buffer sb.rear (of_list (le_bytes w value)) 0 w (omega arith) (omega arith),
        n,
      ),
      refl,
      put_bytes-Wrote v (le_bytes w value) (omega arith),
    )

-- Without, the buffer is doubled first.
write_value_grow :
    {sb : SerializeBuffer} (w value : ℕ)
    → IsValid sb
    → sb.buffer_size < sb.rear + w
    → sb.rear + w ≤ sb.buffer_size * 2
    → sb.buffer_size * 2 ≤ ringbuffer_size
    → (sb' : SerializeBuffer) × (write_value w value sb ≡ ok sb')
      × (sb'.buffer_size ≡ sb.buffer_size * 2)
      × Wrote sb (le_bytes w value) sb'
unfolding write_value
write_value_grow {sb} w value v full large small =
    let n = length-le_bytes w value in
    let wrote = put_bytes-Wrote (grown-IsValid v small) (le_bytes w value) (omega arith) in
    (
      put_bytes (grown-IsValid v small) (le_bytes w value),
      rw (
        room_test w v,
        lt→ltb _ _ full,
        resize-grown v small,
        memcpy-ok (grown v).buffer sb.rear (of_list (le_bytes w value)) 0 w (omega arith)
            (omega arith),
        n,
      ),
      refl,
      record {
        valid = wrote.valid;
        appended = rw (wrote.appended, written-grown v);
        rear_moved = wrote.rear_moved;
        front_kept = refl;
      },
    )

pub write_value_thrown :
    {sb : SerializeBuffer} (w value : ℕ)
    → IsValid sb
    → sb.buffer_size < sb.rear + w
    → ringbuffer_size < sb.buffer_size * 2
    → write_value w value sb ≡ err thrown
unfolding write_value
write_value_thrown {sb} w value v full large =
    rw (room_test w v, lt→ltb _ _ full, resize_thrown sb large)

-- A value for which twice the buffer is too small is written past its end.
write_value_past_end :
    {sb : SerializeBuffer} (w value : ℕ)
    → IsValid sb
    → sb.buffer_size < sb.rear + w
    → sb.buffer_size * 2 ≤ ringbuffer_size
    → sb.buffer_size * 2 < sb.rear + w
    → write_value w value sb ≡ err out_of_bounds
unfolding write_value memcpy
write_value_past_end {sb} w value v full small past =
    let over : leb (sb.rear + w) (sb.buffer_size * 2) ≡ false = ground arith in
    rw (room_test w v, lt→ltb _ _ full, resize-grown v small, over) refl

-- `<<` on a valid buffer. It throws exactly where the value does not fit behind what is written and the double
-- of the buffer is more than `RINGBUFFER_SIZE`. It writes past the end of the buffer exactly where the double may be
-- had and the value does not fit there either: the buffer is doubled once. Otherwise it appends the bytes of the
-- value, in a buffer of twice the size if they did not fit.
pub write_value_lem :
    {sb : SerializeBuffer} (w value : ℕ)
    → IsValid sb
    → (sb.buffer_size < sb.rear + w)
        × (ringbuffer_size < sb.buffer_size * 2)
        × (write_value w value sb ≡ err thrown)
      ⊎ ((sb.buffer_size * 2 < sb.rear + w)
            × (sb.buffer_size * 2 ≤ ringbuffer_size)
            × (write_value w value sb ≡ err out_of_bounds)
          ⊎ ((sb' : SerializeBuffer) × (write_value w value sb ≡ ok sb')
              × (sb'.buffer_size ≡ (
                  if ltb sb.buffer_size (sb.rear + w) then sb.buffer_size * 2 else sb.buffer_size))
              × Wrote sb (le_bytes w value) sb'))
write_value_lem {sb} w value v = elim (Bool-cases (ltb sb.buffer_size (sb.rear + w))) [
  | inr fits ↦ rw fits (inr (inr (write_value_room w value v (ground arith))))
  | inl full ↦
      let h = ltb→lt _ _ full in
      elim (Bool-cases (ltb ringbuffer_size (sb.buffer_size * 2))) [
        | inl over ↦ inl (h, ltb→lt _ _ over, write_value_thrown w value v h (ltb→lt _ _ over))
        | inr small ↦ elim (Bool-cases (leb (sb.rear + w) (sb.buffer_size * 2))) [
          | inl room ↦
              rw full (inr (inr (write_value_grow w value v h (ground arith) (ground arith))))
          | inr past ↦ inr (
              inl (
                ground arith,
                ground arith,
                write_value_past_end w value v h (ground arith) (ground arith),
              ))
        ]
      ]
]

pub Wrote-nil : {sb : SerializeBuffer} → IsValid sb → Wrote sb [] sb
Wrote-nil v = record {
  valid = v;
  appended = sym (append-nil _);
  rear_moved = omega arith;
  front_kept = refl;
}

-- One write after another is a write of both.
pub Wrote-trans :
    {sb sb' sb'' : SerializeBuffer} (xs ys : List ℕ)
    → Wrote sb xs sb'
    → Wrote sb' ys sb''
    → Wrote sb (xs ++ ys) sb''
Wrote-trans {sb} xs ys p q = record {
  valid = q.valid;
  appended = rw (q.appended, p.appended) (append_assoc (written sb) xs ys);
  rear_moved = omega (arith, p.rear_moved, q.rear_moved, length-append xs ys);
  front_kept = q.front_kept ∙ p.front_kept;
}
