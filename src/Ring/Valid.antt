-- ===== src/Ring/Valid.antt =====
-- The well-formedness of a ring, its contents, and what the size queries say of them.
use mmotcpfighter.Base.{ℕ, ◌+◌, ◌%◌, ◌≤◌, ◌<◌, ◌≡◌, List, length, tabulate, length-tabulate, arith}
use mmotcpfighter.Memory.{Block}
use mmotcpfighter.Ring.{
  Ring, actual_size, buffer_size, get_use_size, get_free_size, direct_enqueue_size,
  direct_dequeue_size,
}

pub record IsValid (r : Ring) : Type 0 where
  pub in_range : r.in_pos < actual_size
  pub out_range : r.out_pos < actual_size
  pub whole : r.buffer.size ≡ actual_size

-- The `n` bytes that follow position `p` on the circle.
abbrev pub arc : Block → ℕ → ℕ → List ℕ
arc b p n = tabulate n (λ k. b.byte ((p + k) % actual_size))

-- The bytes that wait in the ring, oldest first.
abbrev pub contents : Ring → List ℕ
contents r = arc r.buffer r.out_pos (get_use_size r)

pub length-contents : (r : Ring) → length (contents r) ≡ get_use_size r
length-contents r = length-tabulate (get_use_size r) _

-- A valid ring holds at most `BUFFER_SIZE` bytes: the sizes in use and free make it up.
pub use-add-free : {r : Ring} → IsValid r → get_use_size r + get_free_size r ≡ buffer_size
unfolding get_free_size get_use_size
use-add-free v = ground arith

-- Behind the bytes in use stands the position where the next one goes.
pub in_pos-eq : {r : Ring} → IsValid r → r.in_pos ≡ (r.out_pos + get_use_size r) % actual_size
unfolding get_use_size
in_pos-eq v = ground arith

pub direct_enqueue-le : {r : Ring} → IsValid r → direct_enqueue_size r ≤ get_free_size r
unfolding get_free_size get_use_size direct_enqueue_size
direct_enqueue-le v = ground arith

pub direct_dequeue-le : {r : Ring} → IsValid r → direct_dequeue_size r ≤ get_use_size r
unfolding get_use_size direct_dequeue_size
direct_dequeue-le v = ground arith
