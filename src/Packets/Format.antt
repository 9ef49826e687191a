-- ===== src/Packets/Format.antt =====
-- The packets as data, and their bytes on the wire: a header of the code 0x89, the size of what
-- follows the header and the packet's type, then the fields.
use mmotcpfighter.Base.{ℕ, List, ◌++◌, length, ℤ, short_pattern, char_pattern}
use mmotcpfighter.Position.{Pos}
use mmotcpfighter.Serial.{le_bytes}

pub data Packet : Type 0 where
  create_my_character create_other_character : ℕ → ℕ → Pos → ℤ → Packet
  delete_character : ℕ → Packet
  move_start move_stop : ℕ → ℕ → Pos → Packet
  attack1 attack2 attack3 : ℕ → ℕ → Pos → Packet
  damage : ℕ → ℕ → ℤ → Packet
  sync : ℕ → Pos → Packet
  echo : ℕ → Packet

unfoldable pub packet_type : Packet → ℕ
packet_type (create_my_character _ _ _ _) = 0
packet_type (create_other_character _ _ _ _) = 1
packet_type (delete_character _) = 2
packet_type (move_start _ _ _) = 11
packet_type (move_stop _ _ _) = 13
packet_type (attack1 _ _ _) = 21
packet_type (attack2 _ _ _) = 23
packet_type (attack3 _ _ _) = 25
packet_type (damage _ _ _) = 30
packet_type (sync _ _) = 251
packet_type (echo _) = 253

abbrev dword : ℕ → List ℕ
dword = le_bytes 4

abbrev byte : ℕ → List ℕ
byte = le_bytes 1

abbrev short : ℤ → List ℕ
short z = le_bytes 2 (short_pattern z)

-- An identifier, a direction and a position, x first.
abbrev placed : ℕ → ℕ → Pos → List ℕ
placed id dir p = dword id ++ (byte dir ++ (short p.x ++ short p.y))

unfoldable pub payload : Packet → List ℕ
payload (create_my_character id dir p hp) = placed id dir p ++ byte (char_pattern hp)
payload (create_other_character id dir p hp) = placed id dir p ++ byte (char_pattern hp)
payload (delete_character id) = dword id
payload (move_start id dir p) = placed id dir p
payload (move_stop id dir p) = placed id dir p
payload (attack1 id dir p) = placed id dir p
payload (attack2 id dir p) = placed id dir p
payload (attack3 id dir p) = placed id dir p
payload (damage attacker victim hp) = dword attacker ++ (dword victim ++ byte (char_pattern hp))
payload (sync id p) = dword id ++ (short p.x ++ short p.y)
payload (echo time) = dword time

unfoldable pub encode : Packet → List ℕ
unfolding payload packet_type
encode p = byte 0x89 ++ (byte (length (payload p)) ++ (byte (packet_type p) ++ payload p))
