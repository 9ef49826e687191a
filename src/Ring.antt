-- ===== src/Ring.antt =====
-- RingBuffer.h and RingBuffer.cpp: a circular queue of bytes, one byte larger than it can hold. A
-- method that changes `*this` returns the new ring beside its result. Sizes and positions are
-- `int`s that are never negative: every caller passes a size of 0 or more, and below
-- `actual_size` the sums of positions and sizes are far from overflow.
pub mod Valid
pub mod Fifo
pub mod Transfer
pub mod Settles
pub mod Queue
pub mod Refine
mod Tests
use mmotcpfighter.Base.{
  ℕ, ◌+◌, ◌-◌, ◌%◌, Bool, ◌&&◌, ltb, leb, if◌then◌else◌, Outcome, ok, err, ◌>>=◌, ◌>>◌, require,
  debug_break, not,
}
use mmotcpfighter.Memory.{Block, memcpy}

abbrev pub buffer_size : ℕ
buffer_size = 10000

abbrev pub actual_size : ℕ
actual_size = 10000 + 1

pub record Ring : Type 0 where
  pub out_pos : ℕ
  pub in_pos : ℕ
  pub buffer : Block

unfoldable pub get_use_size : Ring → ℕ
get_use_size r =
    if leb r.out_pos r.in_pos then r.in_pos - r.out_pos else actual_size - r.out_pos + r.in_pos

unfoldable pub get_free_size : Ring → ℕ
get_free_size r = let use_size = get_use_size r in buffer_size - use_size

unfoldable pub direct_enqueue_size : Ring → ℕ
direct_enqueue_size r =
    if leb r.out_pos r.in_pos
    then (if ltb 0 r.out_pos then actual_size - r.in_pos else buffer_size - r.in_pos)
    else r.out_pos - r.in_pos - 1

unfoldable pub direct_dequeue_size : Ring → ℕ
direct_dequeue_size r =
    if leb r.out_pos r.in_pos then r.in_pos - r.out_pos else actual_size - r.out_pos

-- `MoveInOrOutPos_MACRO`
abbrev pub move_pos : ℕ → ℕ → ℕ
move_pos pos size = (pos + size) % actual_size

-- `pSource` is the block of memory that it points into, from its start.
pub enqueue : Ring → Block → ℕ → Outcome (ℕ × Ring)
enqueue r source size_to_put =
    let direct = direct_enqueue_size r in
    let first = if leb size_to_put direct then size_to_put else direct in
    let second = size_to_put - first in
    let one_copy = λ (b : Block). record r { buffer = b; in_pos = move_pos r.in_pos first } in
    let copy_rest : Ring → Outcome (ℕ × Ring) = λ r'. do
      b ← memcpy r'.buffer r'.in_pos source first second
      ok (first + second, record r' { buffer = b; in_pos = move_pos r'.in_pos second })
    in let put : Outcome (ℕ × Ring) = do
      b ← memcpy r.buffer r.in_pos source 0 first
      if leb second 0 then ok (first, one_copy b) else copy_rest (one_copy b)
      in if ltb (get_free_size r) size_to_put then ok (0, r) else put

-- The result is the size, the ring and the block that `pOutDest` points to.
pub dequeue : Ring → Block → ℕ → Outcome (ℕ × Ring × Block)
dequeue r dest size_to_out =
    let direct = direct_dequeue_size r in
    let first = if ltb size_to_out direct then size_to_out else direct in
    let second = size_to_out - first in
    let moved = record r { out_pos = move_pos r.out_pos first } in
    let copy_rest : Block → Outcome (ℕ × Ring × Block) = λ d. do
      d' ← memcpy d first moved.buffer moved.out_pos second
      ok (first + second, record moved { out_pos = move_pos moved.out_pos second }, d')
    in let get : Outcome (ℕ × Ring × Block) = do
      d ← memcpy dest 0 r.buffer r.out_pos first
      if leb second 0 then ok (first, moved, d) else copy_rest d
      in if ltb (get_use_size r) size_to_out then ok (0, r, dest) else get

pub peek : Ring → Block → ℕ → Outcome (ℕ × Block)
peek r target size_to_peek =
    let direct = direct_dequeue_size r in
    let first = if ltb size_to_peek direct then size_to_peek else direct in
    let second = size_to_peek - first in
    let copy_rest : Block → Outcome (ℕ × Block) =
      λ t. do t' ← memcpy t first r.buffer 0 second; ok (first + second, t')
    in let get : Outcome (ℕ × Block) = do
      t ← memcpy target 0 r.buffer r.out_pos first
      if leb second 0 then ok (first, t) else copy_rest t
      in if ltb (get_use_size r) size_to_peek then ok (0, target) else get

pub clear_buffer : Ring → Ring
clear_buffer r = record r { in_pos = 0; out_pos = 0 }

pub move_in_pos : Ring → ℕ → ℕ × Ring
move_in_pos r size = let pos = move_pos r.in_pos size in (pos, record r { in_pos = pos })

pub move_out_pos : Ring → ℕ → Outcome (ℕ × Ring)
move_out_pos r size =
    let prev = r.out_pos in
    let pos = move_pos r.out_pos size in
    if leb prev r.in_pos && ltb r.in_pos pos
    then err debug_break
    else ok (pos, record r { out_pos = pos })

-- `GetWriteStartPtr` and `GetReadStartPtr` return a pointer into `Buffer_`: here, its offset.
abbrev pub get_write_start : Ring → ℕ
get_write_start r = r.in_pos

abbrev pub get_read_start : Ring → ℕ
get_read_start r = r.out_pos
