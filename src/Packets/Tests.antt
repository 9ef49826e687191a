-- ===== src/Packets/Tests.antt =====
-- A packet into a fresh buffer, and one into a full buffer.
use mmotcpfighter.Base.{
  ℕ, ◌≡◌, refl, [], ◌∷◌, length, arith, pos, negsuc, ok, err, thrown, short_pattern,
}
use mmotcpfighter.Memory.{new_block}
use mmotcpfighter.Serial.{SerializeBuffer, le_bytes}
use mmotcpfighter.Serial.Valid.{Wrote}
use mmotcpfighter.Packets.Format.{Packet, move_start, encode}
use mmotcpfighter.Packets.Make.{make, make_room, make_thrown}

abbrev allocated : ℕ → SerializeBuffer
allocated n = record { buffer = new_block 10000; buffer_size = 10000; front = 0; rear = n }

abbrev step : Packet
step = move_start 300 4 (record { y = pos 2; x = negsuc 0 })

encode-step : encode step ≡ 0x89 ∷ 9 ∷ 11 ∷ 44 ∷ 1 ∷ 0 ∷ 0 ∷ 4 ∷ 255 ∷ 255 ∷ 2 ∷ 0 ∷ []
unfolding encode le_bytes short_pattern
encode-step = refl

make_room_example :
    (sb' : SerializeBuffer) × (make step (allocated 0) ≡ ok (length (encode step), sb'))
    × (sb'.buffer_size ≡ 10000)
    × Wrote (allocated 0) (encode step) sb'
unfolding encode le_bytes
make_room_example = make_room step {sb = allocated 0} (omega arith) (omega arith)

make_thrown_example : make step (allocated 9990) ≡ err thrown
unfolding encode le_bytes
make_thrown_example =
    make_thrown step {sb = allocated 9990} (omega arith) (omega arith) (omega arith)
