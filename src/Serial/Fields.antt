-- ===== src/Serial/Fields.antt =====
-- Several values, written one after the other and read back, as the handlers of the packets do it.
use mmotcpfighter.Base.{
  ℕ, zero, suc, ◌+◌, ◌-◌, ◌^◌, ◌≤◌, ◌<◌, ◌≡◌, refl, ap, sym, ◌∙◌, List, [], ◌∷◌, ◌++◌, append-nil,
  append_assoc, length, drop, drop_of_append, Outcome, ok, ◌>>=◌, arith,
}
use mmotcpfighter.Memory.{bytes}
use mmotcpfighter.Memory.Laws.{bytes_split, length-bytes}
use mmotcpfighter.Serial.{SerializeBuffer, le_bytes, write_value, read_value}
use mmotcpfighter.Serial.Valid.{IsValid, written, unread, Wrote}
use mmotcpfighter.Serial.Write.{length-le_bytes, write_value_room, Wrote-nil, Wrote-trans}
use mmotcpfighter.Serial.Read.{read_value-le_bytes}

-- Widths and values.
abbrev pub write_all : List (ℕ × ℕ) → SerializeBuffer → Outcome SerializeBuffer
write_all [] sb = ok sb
write_all ((w, value) ∷ fields) sb = do sb' ← write_value w value sb; write_all fields sb'

abbrev pub read_all : List ℕ → SerializeBuffer → Outcome (List ℕ × SerializeBuffer)
read_all [] sb = ok ([], sb)
read_all (w ∷ ws) sb = do
  (value, sb') ← read_value w sb
  (values, sb'') ← read_all ws sb'
  ok (value ∷ values, sb'')

abbrev pub widths : List (ℕ × ℕ) → List ℕ
widths [] = []
widths ((w, _) ∷ fields) = w ∷ widths fields

abbrev pub values : List (ℕ × ℕ) → List ℕ
values [] = []
values ((_, value) ∷ fields) = value ∷ values fields

abbrev pub total_width : List (ℕ × ℕ) → ℕ
total_width [] = 0
total_width ((w, _) ∷ fields) = w + total_width fields

-- Each value fits into its width.
abbrev pub AreFitting : List (ℕ × ℕ) → Type 0
AreFitting [] = Unit {0}
AreFitting ((w, value) ∷ fields) = (value < 256 ^ w) × AreFitting fields

abbrev encoded : List (ℕ × ℕ) → List ℕ
encoded [] = []
encoded ((w, value) ∷ fields) = le_bytes w value ++ encoded fields

unread_of_written : {sb : SerializeBuffer} → IsValid sb → unread sb ≡ drop sb.front (written sb)
unread_of_written {sb} v =
    let e : sb.rear ≡ sb.front + (sb.rear - sb.front) = omega (arith, v.front_in) in
    let parts = bytes_split sb.buffer 0 sb.front (sb.rear - sb.front) in
    let zero_off : 0 + sb.front ≡ sb.front = omega arith in
    sym (
      ap (λ n. drop sb.front (bytes sb.buffer 0 n)) e
      ∙ ap (drop sb.front) (sym parts)
      ∙ drop_of_append sb.front (bytes sb.buffer 0 sb.front)
          (bytes sb.buffer (0 + sb.front) (sb.rear - sb.front)) (length-bytes sb.buffer 0 sb.front)
      ∙ ap (λ n. bytes sb.buffer n (sb.rear - sb.front)) zero_off)

drop_short : (n : ℕ) (xs ys : List ℕ) → n ≤ length xs → drop n (xs ++ ys) ≡ drop n xs ++ ys
drop_short zero xs ys h = refl
drop_short (suc n) [] ys h = absurd (omega arith)
drop_short (suc n) (x ∷ xs) ys h = drop_short n xs ys (omega arith)

-- What has been written is left to read, behind what was left before.
unread-Wrote :
    {sb sb' : SerializeBuffer} (xs : List ℕ)
    → IsValid sb
    → Wrote sb xs sb'
    → unread sb' ≡ unread sb ++ xs
unread-Wrote {sb} {sb'} xs v w =
    let n : length (written sb) ≡ sb.rear = length-bytes sb.buffer 0 sb.rear in
    unread_of_written w.valid
    ∙ rw (w.front_kept, w.appended, unread_of_written v)
        (drop_short sb.front (written sb) xs (omega (arith, v.front_in)))

write_all-Wrote :
    (fields : List (ℕ × ℕ)) {sb : SerializeBuffer}
    → IsValid sb
    → sb.rear + total_width fields ≤ sb.buffer_size
    → (sb' : SerializeBuffer) × (write_all fields sb ≡ ok sb') × Wrote sb (encoded fields) sb'
write_all-Wrote [] {sb} v room = (sb, refl, Wrote-nil v)
write_all-Wrote ((w, value) ∷ fields) {sb} v room =
    let (sb₁, e₁, size, wrote) = write_value_room w value v (omega arith) in
    let n = length-le_bytes w value in
    let (sb₂, e₂, more) = write_all-Wrote fields wrote.valid (omega (arith, wrote.rear_moved)) in
    (sb₂, rw e₁ e₂, Wrote-trans (le_bytes w value) (encoded fields) wrote more)

read_all-encoded :
    (fields : List (ℕ × ℕ)) {sb : SerializeBuffer} (rest : List ℕ)
    → IsValid sb
    → AreFitting fields
    → unread sb ≡ encoded fields ++ rest
    → (sb' : SerializeBuffer) × (read_all (widths fields) sb ≡ ok (values fields, sb'))
      × (unread sb' ≡ rest)
read_all-encoded [] {sb} rest v fit e = (sb, refl, e)
read_all-encoded ((w, value) ∷ fields) {sb} rest v fit e =
    let (sb₁, e₁, v₁, u₁) =
      read_value-le_bytes w value (encoded fields ++ rest) v fit.0
        (e ∙ append_assoc (le_bytes w value) (encoded fields) rest) in
    let (sb₂, e₂, u₂) = read_all-encoded fields rest v₁ fit.1 u₁ in (sb₂, rw (e₁, e₂) refl, u₂)

-- Values that fit into their widths, written by `<<` one after the other to a valid buffer in which nothing is left to read and
-- which has room for them, are read back by `>>` at the same widths, in the same order, and nothing is left then. Neither
-- throws.
pub read_all-write_all :
    {sb : SerializeBuffer} (fields : List (ℕ × ℕ))
    → IsValid sb
    → unread sb ≡ []
    → AreFitting fields
    → sb.rear + total_width fields ≤ sb.buffer_size
    → (sb' : SerializeBuffer) × (sb'' : SerializeBuffer) × (write_all fields sb ≡ ok sb')
      × (read_all (widths fields) sb' ≡ ok (values fields, sb''))
      × (unread sb'' ≡ [])
read_all-write_all {sb} fields v none fit room =
    let (sb₁, e₁, wrote) = write_all-Wrote fields v room in
    let left : unread sb₁ ≡ encoded fields ++ [] =
      unread-Wrote (encoded fields) v wrote
      ∙ ap (λ xs. xs ++ encoded fields) none
      ∙ sym (append-nil (encoded fields)) in
    let (sb₂, e₂, u₂) = read_all-encoded fields [] wrote.valid fit left in (sb₁, sb₂, e₁, e₂, u₂)
