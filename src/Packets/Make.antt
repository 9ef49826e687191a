-- ===== src/Packets/Make.antt =====
-- The functions of SCContents.cpp write what the format says, and return its size.
use mmotcpfighter.Base.{
  ℕ, ◌+◌, ◌*◌, ◌≤◌, ◌<◌, ◌≡◌, refl, List, [], ◌∷◌, ◌++◌, length, length-append, Bool-cases, inl,
  inr, leb, leb→le, Outcome, ok, err, thrown, arith, ◌∙◌,
}
use mmotcpfighter.Serial.{SerializeBuffer, ringbuffer_size, le_bytes}
use mmotcpfighter.Serial.Valid.{IsValid, Wrote}
use mmotcpfighter.Serial.Write.{
  length-le_bytes, write_value_room, write_value_thrown, Wrote-nil, Wrote-trans,
}
use mmotcpfighter.Packets.{
  Field, write_fields, make_header, make_packet, make_create_my_character,
  make_create_other_character, make_delete_character, make_move_start, make_move_stop, make_attack,
  make_damage, make_sync, make_echo, packet_code, byte_field,
}
use mmotcpfighter.Packets.Format.{
  Packet, create_my_character, create_other_character, delete_character, move_start, move_stop,
  attack1, attack2, attack3, damage, sync, echo, encode,
}

fields_bytes : List Field → List ℕ
fields_bytes [] = []
fields_bytes ((w, v) ∷ fs) = le_bytes w v ++ fields_bytes fs

fields_size : List Field → ℕ
fields_size [] = 0
fields_size ((w, v) ∷ fs) = w + fields_size fs

length-fields_bytes : (fs : List Field) → length (fields_bytes fs) ≡ fields_size fs
unfolding fields_bytes fields_size
length-fields_bytes [] = refl
length-fields_bytes ((w, v) ∷ fs) = omega (
  arith,
  length-append (le_bytes w v) (fields_bytes fs),
  length-le_bytes w v,
  length-fields_bytes fs,
)

-- `r` is a success that has written `xs` behind what `sb` holds and keeps the buffer's size.
abbrev pub WritesOk : SerializeBuffer → List ℕ → Outcome SerializeBuffer → Type 0
WritesOk sb xs r =
    (sb' : SerializeBuffer) × (r ≡ ok sb') × (sb'.buffer_size ≡ sb.buffer_size) × Wrote sb xs sb'

write_fields_room :
    (fs : List Field) {sb : SerializeBuffer}
    → IsValid sb
    → sb.rear + fields_size fs ≤ sb.buffer_size
    → WritesOk sb (fields_bytes fs) (write_fields fs sb)
unfolding write_fields fields_size fields_bytes
write_fields_room [] {sb} v room = (sb, refl, refl, Wrote-nil v)
write_fields_room ((w, x) ∷ fs) {sb} v room =
    let (sb₁, e, size, wrote) = write_value_room w x v (omega arith) in
    let (sb₂, e', size', wrote') =
      write_fields_room fs wrote.valid (omega (arith, wrote.rear_moved, length-le_bytes w x)) in
    (sb₂, rw (e, e'), size' ∙ size, Wrote-trans _ _ wrote wrote')

-- In a buffer that cannot grow, fields that do not fit throw.
write_fields_thrown :
    (fs : List Field) {sb : SerializeBuffer}
    → IsValid sb
    → sb.buffer_size < sb.rear + fields_size fs
    → ringbuffer_size < sb.buffer_size * 2
    → write_fields fs sb ≡ err thrown
unfolding write_fields fields_size
write_fields_thrown [] v over fixed = absurd (omega (arith, v.rear_in))
write_fields_thrown ((w, x) ∷ fs) {sb} v over fixed =
    elim (Bool-cases (leb (sb.rear + w) sb.buffer_size)) [
      | inl fits ↦
          let (sb₁, e, size, wrote) = write_value_room w x v (leb→le _ _ fits) in
          rw e (
            write_fields_thrown fs wrote.valid
              (omega (arith, wrote.rear_moved, length-le_bytes w x)) (omega arith))
      | inr full ↦ rw (write_value_thrown w x v (ground arith) fixed)
    ]

-- The bytes of a packet of the given size, type and fields.
abbrev packet_bytes : ℕ → ℕ → List Field → List ℕ
packet_bytes size type fields =
    fields_bytes (byte_field packet_code ∷ byte_field size ∷ byte_field type ∷ [])
    ++ fields_bytes fields

module _ (size type : ℕ) (fields : List Field) (sized : fields_size fields ≡ size)
    {sb : SerializeBuffer} (v : IsValid sb) where
  make_packet_room :
      sb.rear + (size + 3) ≤ sb.buffer_size
      → (sb' : SerializeBuffer) × (make_packet size type fields sb ≡ ok (size + 3, sb'))
        × (sb'.buffer_size ≡ sb.buffer_size)
        × Wrote sb (packet_bytes size type fields) sb'
  unfolding make_header fields_size fields_bytes
  make_packet_room room =
      let head = byte_field packet_code ∷ byte_field size ∷ byte_field type ∷ [] in
      let (sb₁, e, s, wrote) = write_fields_room head v (omega arith) in
      let moved = wrote.rear_moved in
      let (sb₂, e', s', wrote') =
        write_fields_room fields wrote.valid (omega (arith, length-fields_bytes head)) in
      (sb₂, rw (e, e'), s' ∙ s, Wrote-trans (fields_bytes head) (fields_bytes fields) wrote wrote')

  make_packet_thrown :
      sb.buffer_size < sb.rear + (size + 3)
      → ringbuffer_size < sb.buffer_size * 2
      → make_packet size type fields sb ≡ err thrown
  unfolding make_header fields_size fields_bytes
  make_packet_thrown over fixed =
      let head = byte_field packet_code ∷ byte_field size ∷ byte_field type ∷ [] in
      elim (Bool-cases (leb (sb.rear + 3) sb.buffer_size)) [
        | inr full ↦ rw (write_fields_thrown head v (ground arith) fixed)
        | inl fits ↦
            let h = leb→le _ _ fits in
            let (sb₁, e, s, wrote) = write_fields_room head v (omega arith) in
            let moved = wrote.rear_moved in
            rw (
              e,
              write_fields_thrown fields wrote.valid (omega (arith, length-fields_bytes head))
                  (omega arith),
            )
      ]

-- The function of the source that makes a packet.
unfoldable pub make : Packet → SerializeBuffer → Outcome (ℕ × SerializeBuffer)
make (create_my_character id dir p hp) = make_create_my_character id dir p hp
make (create_other_character id dir p hp) = make_create_other_character id dir p hp
make (delete_character id) = make_delete_character id
make (move_start id dir p) = make_move_start id dir p
make (move_stop id dir p) = make_move_stop id dir p
make (attack1 id dir p) = make_attack id dir p 1
make (attack2 id dir p) = make_attack id dir p 2
make (attack3 id dir p) = make_attack id dir p 3
make (damage attacker victim hp) = make_damage attacker victim hp
make (sync id p) = make_sync id p
make (echo time) = make_echo time

-- Each function, into a valid buffer with room for its packet, writes exactly the bytes of the
-- packet's format behind what the buffer holds, and returns their number.
pub make_room :
    (p : Packet) {sb : SerializeBuffer}
    → IsValid sb
    → sb.rear + length (encode p) ≤ sb.buffer_size
    → (sb' : SerializeBuffer) × (make p sb ≡ ok (length (encode p), sb'))
      × (sb'.buffer_size ≡ sb.buffer_size)
      × Wrote sb (encode p) sb'
unfolding make make_create_my_character make_create_other_character make_delete_character
    make_move_start make_move_stop make_attack make_damage make_sync make_echo encode le_bytes
    fields_size fields_bytes
make_room (create_my_character id dir p hp) v room = make_packet_room 10 0 _ refl v room
make_room (create_other_character id dir p hp) v room = make_packet_room 10 1 _ refl v room
make_room (delete_character id) v room = make_packet_room 4 2 _ refl v room
make_room (move_start id dir p) v room = make_packet_room 9 11 _ refl v room
make_room (move_stop id dir p) v room = make_packet_room 9 13 _ refl v room
make_room (attack1 id dir p) v room = make_packet_room 9 21 _ refl v room
make_room (attack2 id dir p) v room = make_packet_room 9 23 _ refl v room
make_room (attack3 id dir p) v room = make_packet_room 9 25 _ refl v room
make_room (damage attacker victim hp) v room = make_packet_room 9 30 _ refl v room
make_room (sync id p) v room = make_packet_room 8 251 _ refl v room
make_room (echo time) v room = make_packet_room 4 253 _ refl v room

-- Each function, into a valid buffer that is too full for its packet and too large to be doubled,
-- throws.
pub make_thrown :
    (p : Packet) {sb : SerializeBuffer}
    → IsValid sb
    → sb.buffer_size < sb.rear + length (encode p)
    → ringbuffer_size < sb.buffer_size * 2
    → make p sb ≡ err thrown
unfolding make make_create_my_character make_create_other_character make_delete_character
    make_move_start make_move_stop make_attack make_damage make_sync make_echo encode le_bytes
    fields_size fields_bytes
make_thrown (create_my_character id dir p hp) v over fixed =
    make_packet_thrown 10 0 _ refl v over fixed
make_thrown (create_other_character id dir p hp) v over fixed =
    make_packet_thrown 10 1 _ refl v over fixed
make_thrown (delete_character id) v over fixed = make_packet_thrown 4 2 _ refl v over fixed
make_thrown (move_start id dir p) v over fixed = make_packet_thrown 9 11 _ refl v over fixed
make_thrown (move_stop id dir p) v over fixed = make_packet_thrown 9 13 _ refl v over fixed
make_thrown (attack1 id dir p) v over fixed = make_packet_thrown 9 21 _ refl v over fixed
make_thrown (attack2 id dir p) v over fixed = make_packet_thrown 9 23 _ refl v over fixed
make_thrown (attack3 id dir p) v over fixed = make_packet_thrown 9 25 _ refl v over fixed
make_thrown (damage attacker victim hp) v over fixed = make_packet_thrown 9 30 _ refl v over fixed
make_thrown (sync id p) v over fixed = make_packet_thrown 8 251 _ refl v over fixed
make_thrown (echo time) v over fixed = make_packet_thrown 4 253 _ refl v over fixed
