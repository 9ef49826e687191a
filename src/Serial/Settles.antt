-- ===== src/Serial/Settles.antt =====
-- The methods of the serializing buffer are loops of no kind: none reports that its fuel ran out.
use mmotcpfighter.Base.{ℕ, Settles, arith}
use mmotcpfighter.Memory.{memcpy}
use mmotcpfighter.Serial.{SerializeBuffer, resize, write_value, read_value}

resize-Settles : (sb : SerializeBuffer) → Settles (resize sb)
unfolding resize memcpy
resize-Settles sb = record { apply = λ h. ground arith }

pub write_value-Settles : (w v : ℕ) (sb : SerializeBuffer) → Settles (write_value w v sb)
unfolding write_value memcpy
write_value-Settles w v sb = record {
  apply = λ h.
      ground (arith, λ (t : SerializeBuffer). (resize-Settles t).apply, (resize-Settles sb).apply);
}

pub read_value-Settles : (w : ℕ) (sb : SerializeBuffer) → Settles (read_value w sb)
unfolding read_value memcpy
read_value-Settles w sb = record { apply = λ h. ground arith }
