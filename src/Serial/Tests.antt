-- ===== src/Serial/Tests.antt =====
-- The buffer at concrete states.
use mmotcpfighter.Base.{
  ◌+◌, ◌-◌, ◌*◌, ◌<◌, ◌≤◌, ◌≡◌, ◌⊎◌, refl, [], ◌∷◌, length, take, drop, arith, ltb, if◌then◌else◌,
  ok, err, thrown, ℕ, List, out_of_bounds,
}
use mmotcpfighter.Memory.{bytes}
use mmotcpfighter.Serial.{
  SerializeBuffer, ringbuffer_size, le_bytes, of_le_bytes, write_value, read_value,
}
use mmotcpfighter.Serial.Valid.{IsValid, unread, Wrote}
use mmotcpfighter.Serial.Write.{write_value_lem}
use mmotcpfighter.Serial.Fields.{write_all, read_all, read_all-write_all}
use mmotcpfighter.Serial.Read.{read_value_lem, read_value_past_rear}

-- The number 0x0102, then one more byte, in a buffer of 8.
abbrev small : SerializeBuffer
small = record {
  buffer = record { size = 8; byte = λ i. 2 - i };
  buffer_size = 8;
  front = 0;
  rear = 3;
}

small-IsValid : IsValid small
small-IsValid = omega arith

write_value_lem_example :
    (8 < 3 + 8) × (ringbuffer_size < 8 * 2) × (write_value 8 500 small ≡ err thrown)
    ⊎ ((8 * 2 < 3 + 8) × (8 * 2 ≤ ringbuffer_size) × (write_value 8 500 small ≡ err out_of_bounds)
        ⊎ ((sb' : SerializeBuffer) × (write_value 8 500 small ≡ ok sb')
            × (sb'.buffer_size ≡ (if ltb 8 (3 + 8) then 8 * 2 else 8))
            × Wrote small (le_bytes 8 500) sb'))
write_value_lem_example = write_value_lem 8 500 small-IsValid

read_value_lem_example :
    (length (unread small) < 2) × (read_value 2 small ≡ err thrown)
    ⊎ (2 ≤ length (unread small))
      × ((sb' : SerializeBuffer) × (read_value 2 small
            ≡ ok (of_le_bytes (take 2 (unread small)), sb'))
          × IsValid sb'
          × (unread sb' ≡ drop 2 (unread small)))
read_value_lem_example = read_value_lem 2 small-IsValid

-- All of it has been read, and 5 bytes are free.
abbrev read_up : SerializeBuffer
read_up = record small { front = 3 }

read_up-IsValid : IsValid read_up
read_up-IsValid = omega arith

-- As `CS_MOVE_START` has them: a direction, and the two coordinates.
abbrev fields : List (ℕ × ℕ)
fields = (1, 6) ∷ (2, 1000) ∷ (2, 65535) ∷ []

read_all-write_all_example :
    (sb' : SerializeBuffer) × (sb'' : SerializeBuffer) × (write_all fields read_up ≡ ok sb')
    × (read_all (1 ∷ 2 ∷ 2 ∷ []) sb' ≡ ok (6 ∷ 1000 ∷ 65535 ∷ [], sb''))
    × (unread sb'' ≡ [])
read_all-write_all_example =
    read_all-write_all fields read_up-IsValid refl (omega arith, (omega arith, (omega arith, tt)))
      (omega arith)

-- Moved past what was written.
abbrev past : SerializeBuffer
past = record small { front = 5 }

read_value_past_rear_example :
    read_value 2 past ≡ ok (of_le_bytes (bytes small.buffer 5 2), record past { front = 5 + 2 })
read_value_past_rear_example =
    read_value_past_rear past 2 (omega arith) (omega arith) (omega arith) (omega arith)
