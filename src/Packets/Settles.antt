-- ===== src/Packets/Settles.antt =====
-- No function that makes a packet reports that its fuel ran out.
use mmotcpfighter.Base.{
  ℕ, List, [], ◌∷◌, ℤ, Settles, Settles-ok, debug_break-Settles, Settles-bind, settling,
}
use mmotcpfighter.Position.{Pos}
use mmotcpfighter.Serial.{SerializeBuffer}
use mmotcpfighter.Serial.Settles.{write_value-Settles}
use mmotcpfighter.Packets.{
  Field, write_fields, make_header, make_packet, make_create_my_character,
  make_create_other_character, make_delete_character, make_move_start, make_move_stop, make_attack,
  make_damage, make_sync, make_echo,
}

write_fields-Settles : (fs : List Field) (sb : SerializeBuffer) → Settles (write_fields fs sb)
unfolding write_fields
write_fields-Settles [] sb = Settles-ok sb
write_fields-Settles ((w, v) ∷ fs) sb =
    Settles-bind _ _ (write_value-Settles w v sb) (λ sb'. write_fields-Settles fs sb')

make_packet-Settles :
    (size type : ℕ) (fields : List Field) (sb : SerializeBuffer)
    → Settles (make_packet size type fields sb)
unfolding make_header
make_packet-Settles size type fields sb =
    Settles-bind _ _ (Settles-bind _ _ (write_fields-Settles _ sb) (λ sb'. Settles-ok _))
      (λ r. Settles-bind _ _ (write_fields-Settles fields r.1) (λ sb''. Settles-ok _))

module _ (id : ℕ) where
  pub make_create_my_character-Settles :
      (dir : ℕ) (p : Pos) (hp : ℤ) (sb : SerializeBuffer)
      → Settles (make_create_my_character id dir p hp sb)
  unfolding make_create_my_character
  make_create_my_character-Settles dir p hp = make_packet-Settles _ _ _

  pub make_create_other_character-Settles :
      (dir : ℕ) (p : Pos) (hp : ℤ) (sb : SerializeBuffer)
      → Settles (make_create_other_character id dir p hp sb)
  unfolding make_create_other_character
  make_create_other_character-Settles dir p hp = make_packet-Settles _ _ _

  pub make_delete_character-Settles : (sb : SerializeBuffer) → Settles (make_delete_character id sb)
  unfolding make_delete_character
  make_delete_character-Settles = make_packet-Settles _ _ _

  pub make_move_start-Settles :
      (dir : ℕ) (p : Pos) (sb : SerializeBuffer) → Settles (make_move_start id dir p sb)
  unfolding make_move_start
  make_move_start-Settles dir p = make_packet-Settles _ _ _

  pub make_move_stop-Settles :
      (dir : ℕ) (p : Pos) (sb : SerializeBuffer) → Settles (make_move_stop id dir p sb)
  unfolding make_move_stop
  make_move_stop-Settles dir p = make_packet-Settles _ _ _

  pub make_attack-Settles :
      (dir : ℕ) (p : Pos) (num : ℕ) (sb : SerializeBuffer) → Settles (make_attack id dir p num sb)
  unfolding make_attack
  make_attack-Settles dir p num sb = search (settling, make_packet-Settles, debug_break-Settles)

  pub make_damage-Settles :
      (victim : ℕ) (hp : ℤ) (sb : SerializeBuffer) → Settles (make_damage id victim hp sb)
  unfolding make_damage
  make_damage-Settles victim hp = make_packet-Settles _ _ _

  pub make_sync-Settles : (p : Pos) (sb : SerializeBuffer) → Settles (make_sync id p sb)
  unfolding make_sync
  make_sync-Settles p = make_packet-Settles _ _ _

  pub make_echo-Settles : (sb : SerializeBuffer) → Settles (make_echo id sb)
  unfolding make_echo
  make_echo-Settles = make_packet-Settles _ _ _

pub ruleset makes_settle = (
  make_create_my_character-Settles, make_create_other_character-Settles,
  make_delete_character-Settles, make_move_start-Settles, make_move_stop-Settles,
  make_attack-Settles, make_damage-Settles, make_sync-Settles, make_echo-Settles,
)
