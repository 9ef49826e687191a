-- ===== src/Packets.antt =====
-- SCContents.h and SCContents.cpp: the packets from the server to a client. Each function writes a
-- header and the fields of the packet into a buffer and returns the packet's size. The checks under
-- `_DEBUG` are not part of the release build, which is the one modelled.
pub mod Format
pub mod Make
pub mod Settles
mod Tests
use mmotcpfighter.Base.{
  ℕ, ◌+◌, List, [], ◌∷◌, ◌==◌, if◌then◌else◌, ℤ, short_pattern, char_pattern, Outcome, ok, err,
  ◌>>=◌, debug_break,
}
use mmotcpfighter.Position.{Pos}
use mmotcpfighter.Serial.{SerializeBuffer, write_value}

abbrev pub packet_code : ℕ
packet_code = 0x89

-- A field of a packet: the size of its type and its bit pattern.
abbrev pub Field : Type 0
Field = ℕ × ℕ

abbrev pub byte_field : ℕ → Field
byte_field v = (1, v)

abbrev pub dword_field : ℕ → Field
dword_field v = (4, v)

abbrev pub short_field : ℤ → Field
short_field z = (2, short_pattern z)

abbrev pub char_field : ℤ → Field
char_field z = (1, char_pattern z)

-- `sb << a << b << …`
unfoldable pub write_fields : List Field → SerializeBuffer → Outcome SerializeBuffer
write_fields [] sb = ok sb
write_fields ((w, v) ∷ fs) sb = do sb' ← write_value w v sb; write_fields fs sb'

pub make_header : ℕ → ℕ → SerializeBuffer → Outcome (ℕ × SerializeBuffer)
make_header size type sb = do
  sb' ← write_fields (byte_field packet_code ∷ byte_field size ∷ byte_field type ∷ []) sb
  ok (1 + 1 + 1, sb')

-- What every function does: the header, then the fields.
abbrev make_packet : ℕ → ℕ → List Field → SerializeBuffer → Outcome (ℕ × SerializeBuffer)
make_packet size type fields sb = do
  (header_size, sb') ← make_header size type sb
  sb'' ← write_fields fields sb'
  ok (size + header_size, sb'')

pub make_create_my_character : ℕ → ℕ → Pos → ℤ → SerializeBuffer → Outcome (ℕ × SerializeBuffer)
make_create_my_character dest_id direction p hp = make_packet (4 + 1 + 2 + 2 + 1) 0 (
    dword_field dest_id
    ∷ byte_field direction
    ∷ short_field p.x
    ∷ short_field p.y
    ∷ char_field hp
    ∷ [])

pub make_create_other_character : ℕ → ℕ → Pos → ℤ → SerializeBuffer → Outcome (ℕ × SerializeBuffer)
make_create_other_character create_id direction p hp = make_packet (4 + 1 + 2 + 2 + 1) 1 (
    dword_field create_id
    ∷ byte_field direction
    ∷ short_field p.x
    ∷ short_field p.y
    ∷ char_field hp
    ∷ [])

pub make_delete_character : ℕ → SerializeBuffer → Outcome (ℕ × SerializeBuffer)
make_delete_character delete_id = make_packet 4 2 (dword_field delete_id ∷ [])

pub make_move_start : ℕ → ℕ → Pos → SerializeBuffer → Outcome (ℕ × SerializeBuffer)
make_move_start start_id move_dir p =
    make_packet (4 + 1 + 2 + 2) 11
      (dword_field start_id ∷ byte_field move_dir ∷ short_field p.x ∷ short_field p.y ∷ [])

pub make_move_stop : ℕ → ℕ → Pos → SerializeBuffer → Outcome (ℕ × SerializeBuffer)
make_move_stop stop_id view_dir p =
    make_packet (4 + 1 + 2 + 2) 13
      (dword_field stop_id ∷ byte_field view_dir ∷ short_field p.x ∷ short_field p.y ∷ [])

-- Past the `__debugbreak()` of another attack number nothing is modelled: the header's size would
-- be read before it is set.
pub make_attack : ℕ → ℕ → Pos → ℕ → SerializeBuffer → Outcome (ℕ × SerializeBuffer)
make_attack attacker_id view_dir p attack_num sb =
    let fields =
      dword_field attacker_id ∷ byte_field view_dir ∷ short_field p.x ∷ short_field p.y ∷ [] in
    let size = 4 + 1 + 2 + 2 in
    if attack_num == 1
    then make_packet size 21 fields sb
    else if attack_num == 2
    then make_packet size 23 fields sb
    else if attack_num == 3
    then make_packet size 25 fields sb
    else err debug_break

pub make_damage : ℕ → ℕ → ℤ → SerializeBuffer → Outcome (ℕ × SerializeBuffer)
make_damage attacker_id victim_id victim_hp =
    make_packet (4 + 4 + 1) 30
      (dword_field attacker_id ∷ dword_field victim_id ∷ char_field victim_hp ∷ [])

pub make_sync : ℕ → Pos → SerializeBuffer → Outcome (ℕ × SerializeBuffer)
make_sync sync_id p =
    make_packet (4 + 2 + 2) 251 (dword_field sync_id ∷ short_field p.x ∷ short_field p.y ∷ [])

pub make_echo : ℕ → SerializeBuffer → Outcome (ℕ × SerializeBuffer)
make_echo time = make_packet 4 253 (dword_field time ∷ [])
