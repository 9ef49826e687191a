-- ===== src/Serial.antt =====
-- SerializeBuffer.h: a buffer into which packets are written field by field, and out of which they
-- are read. A method that changes `*this` returns the new buffer beside its result.
--
-- `int` fields are natural numbers here: no method makes one negative. A value that goes through
-- `<<` or `>>` is its bit pattern, a number below `256 ^ sizeof`; a `float` or `double` is only
-- moved. The target is little endian.
pub mod Valid
pub mod Write
pub mod Read
pub mod Fields
pub mod Settles
mod Tests
use mmotcpfighter.Base.{
  ℕ, zero, suc, ◌+◌, ◌-◌, ◌*◌, ◌/◌, ◌%◌, ◌^◌, Bool, List, [], ◌∷◌, ltb, if◌then◌else◌, length,
  Outcome, ok, err, ◌>>=◌, thrown,
}
use mmotcpfighter.Memory.{Block, null_block, new_block, memcpy, bytes, of_list}

abbrev pub ringbuffer_size : ℕ
ringbuffer_size = 10000

abbrev pub default_size : ℕ
default_size = 10000 / 8

pub record SerializeBuffer : Type 0 where
  pub buffer : Block
  pub buffer_size : ℕ
  pub front : ℕ
  pub rear : ℕ

-- The constructor.
unfoldable pub empty : SerializeBuffer
empty = record { buffer = null_block; buffer_size = 0; front = 0; rear = 0 }

unfoldable pub alloc_buffer : ℕ → SerializeBuffer → SerializeBuffer
alloc_buffer size sb = record sb { buffer = new_block size; buffer_size = size }

unfoldable pub free_buffer : SerializeBuffer → SerializeBuffer
free_buffer sb = record sb { buffer = null_block }

unfoldable pub resize : SerializeBuffer → Outcome SerializeBuffer
resize sb =
    let grow : Outcome SerializeBuffer = do
      b ← memcpy (new_block (sb.buffer_size * 2)) 0 sb.buffer 0 sb.buffer_size
      ok (record sb { buffer = b; buffer_size = sb.buffer_size * 2 })
    in if ltb ringbuffer_size (sb.buffer_size * 2) then err thrown else grow

unfoldable pub clear : SerializeBuffer → SerializeBuffer
clear sb = record sb { front = 0; rear = 0 }

abbrev pub get_buffer_size : SerializeBuffer → ℕ
get_buffer_size sb = sb.buffer_size

-- The comparison is between `int`s, so `rear_ < front_` also returns 0: written without the
-- subtraction, `rear_ < front_ + sizeToGet`.
unfoldable pub get_data : SerializeBuffer → Block → ℕ → Outcome (ℕ × SerializeBuffer × Block)
get_data sb dest size_to_get =
    let get : Outcome (ℕ × SerializeBuffer × Block) = do
      d ← memcpy dest 0 sb.buffer sb.front size_to_get
      ok (size_to_get, record sb { front = sb.front + size_to_get }, d)
    in if ltb sb.rear (sb.front + size_to_get) then ok (0, sb, dest) else get

-- `bufferSize_ < rear_ + sizeToPut` is the comparison of `int`s.
unfoldable pub put_data : SerializeBuffer → Block → ℕ → Outcome (ℕ × SerializeBuffer)
put_data sb source size_to_put = do
  sb' ← if ltb sb.buffer_size (sb.rear + size_to_put) then resize sb else ok sb
  b ← memcpy sb'.buffer sb'.rear source 0 size_to_put
  ok (size_to_put, record sb' { buffer = b; rear = sb'.rear + size_to_put })

-- Wraps to a negative `int` where `rear_ < front_`; the sources do not call it.
unfoldable pub get_used_data_size : SerializeBuffer → ℕ
get_used_data_size sb = (sb.rear + 2 ^ 32 - sb.front) % 2 ^ 32

abbrev pub get_buffer_ptr : SerializeBuffer → Block
get_buffer_ptr sb = sb.buffer

unfoldable pub move_write_pos : ℕ → SerializeBuffer → SerializeBuffer
move_write_pos size sb = record sb { rear = sb.rear + size }

unfoldable pub move_read_pos : ℕ → SerializeBuffer → SerializeBuffer
move_read_pos size sb = record sb { front = sb.front + size }

-- The bytes of a value of `w` bytes, and the value of such bytes.
unfoldable pub le_bytes : ℕ → ℕ → List ℕ
le_bytes zero v = []
le_bytes (suc w) v = v % 256 ∷ le_bytes w (v / 256)

unfoldable pub of_le_bytes : List ℕ → ℕ
of_le_bytes [] = 0
of_le_bytes (b ∷ bs) = b + 256 * of_le_bytes bs

-- `a - b < sizeof(value)`: `sizeof` is a `size_t`, so the difference of two `int`s is converted to
-- an unsigned 64-bit number before it is compared.
abbrev pub less_than_sizeof : ℕ → ℕ → ℕ → Bool
less_than_sizeof a b w = ltb ((a + 2 ^ 64 - b) % 2 ^ 64) w

-- `operator <<` for a value of `w` bytes.
unfoldable pub write_value : ℕ → ℕ → SerializeBuffer → Outcome SerializeBuffer
write_value w value sb = do
  sb' ← if less_than_sizeof sb.buffer_size sb.rear w then resize sb else ok sb
  b ← memcpy sb'.buffer sb'.rear (of_list (le_bytes w value)) 0 w
  ok (record sb' { buffer = b; rear = sb'.rear + w })

-- `operator >>` for a value of `w` bytes.
unfoldable pub read_value : ℕ → SerializeBuffer → Outcome (ℕ × SerializeBuffer)
read_value w sb =
    let load : Outcome (ℕ × SerializeBuffer) = do
      value ← memcpy (new_block w) 0 sb.buffer sb.front w
      ok (of_le_bytes (bytes value 0 w), record sb { front = sb.front + w })
    in if less_than_sizeof sb.rear sb.front w then err thrown else load

-- The overloads, by the type of the value.
abbrev pub write_unsigned_char : ℕ → SerializeBuffer → Outcome SerializeBuffer
write_unsigned_char = write_value 1

abbrev pub read_unsigned_char : SerializeBuffer → Outcome (ℕ × SerializeBuffer)
read_unsigned_char = read_value 1

abbrev pub write_char : ℕ → SerializeBuffer → Outcome SerializeBuffer
write_char = write_value 1

abbrev pub read_char : SerializeBuffer → Outcome (ℕ × SerializeBuffer)
read_char = read_value 1

abbrev pub write_short : ℕ → SerializeBuffer → Outcome SerializeBuffer
write_short = write_value 2

abbrev pub read_short : SerializeBuffer → Outcome (ℕ × SerializeBuffer)
read_short = read_value 2

abbrev pub write_unsigned_short : ℕ → SerializeBuffer → Outcome SerializeBuffer
write_unsigned_short = write_value 2

abbrev pub read_unsigned_short : SerializeBuffer → Outcome (ℕ × SerializeBuffer)
read_unsigned_short = read_value 2

abbrev pub write_int : ℕ → SerializeBuffer → Outcome SerializeBuffer
write_int = write_value 4

abbrev pub read_int : SerializeBuffer → Outcome (ℕ × SerializeBuffer)
read_int = read_value 4

abbrev pub write_unsigned_int : ℕ → SerializeBuffer → Outcome SerializeBuffer
write_unsigned_int = write_value 4

abbrev pub read_unsigned_int : SerializeBuffer → Outcome (ℕ × SerializeBuffer)
read_unsigned_int = read_value 4

abbrev pub write_long : ℕ → SerializeBuffer → Outcome SerializeBuffer
write_long = write_value 4

abbrev pub read_long : SerializeBuffer → Outcome (ℕ × SerializeBuffer)
read_long = read_value 4

abbrev pub write_unsigned_long : ℕ → SerializeBuffer → Outcome SerializeBuffer
write_unsigned_long = write_value 4

abbrev pub read_unsigned_long : SerializeBuffer → Outcome (ℕ × SerializeBuffer)
read_unsigned_long = read_value 4

abbrev pub write_int64 : ℕ → SerializeBuffer → Outcome SerializeBuffer
write_int64 = write_value 8

abbrev pub read_int64 : SerializeBuffer → Outcome (ℕ × SerializeBuffer)
read_int64 = read_value 8

abbrev pub write_unsigned_int64 : ℕ → SerializeBuffer → Outcome SerializeBuffer
write_unsigned_int64 = write_value 8

abbrev pub read_unsigned_int64 : SerializeBuffer → Outcome (ℕ × SerializeBuffer)
read_unsigned_int64 = read_value 8

abbrev pub write_float : ℕ → SerializeBuffer → Outcome SerializeBuffer
write_float = write_value 4

abbrev pub read_float : SerializeBuffer → Outcome (ℕ × SerializeBuffer)
read_float = read_value 4

abbrev pub write_double : ℕ → SerializeBuffer → Outcome SerializeBuffer
write_double = write_value 8

abbrev pub read_double : SerializeBuffer → Outcome (ℕ × SerializeBuffer)
read_double = read_value 8
