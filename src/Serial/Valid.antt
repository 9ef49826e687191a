-- ===== src/Serial/Valid.antt =====
-- The well-formedness of a buffer, what it holds, and what a write leaves behind.
use mmotcpfighter.Base.{ℕ, ◌+◌, ◌-◌, ◌≤◌, ◌≡◌, List, ◌++◌, length}
use mmotcpfighter.Memory.{bytes}
use mmotcpfighter.Serial.{SerializeBuffer, ringbuffer_size}

pub record IsValid (sb : SerializeBuffer) : Type 0 where
  pub whole : sb.buffer.size ≡ sb.buffer_size
  pub bounded : sb.buffer_size ≤ ringbuffer_size
  pub front_in : sb.front ≤ sb.rear
  pub rear_in : sb.rear ≤ sb.buffer_size

-- All that has been written since the last `clear`: what `GetBufferPtr` points to.
abbrev pub written : SerializeBuffer → List ℕ
written sb = bytes sb.buffer 0 sb.rear

-- The part of it that has not been read.
abbrev pub unread : SerializeBuffer → List ℕ
unread sb = bytes sb.buffer sb.front (sb.rear - sb.front)

-- `sb'` is `sb` with the bytes `xs` written behind the others.
pub record Wrote (sb : SerializeBuffer) (xs : List ℕ) (sb' : SerializeBuffer) : Type 0 where
  pub valid : IsValid sb'
  pub appended : written sb' ≡ written sb ++ xs
  pub rear_moved : sb'.rear ≡ sb.rear + length xs
  pub front_kept : sb'.front ≡ sb.front
