-- ===== src/Ring/Transfer.antt =====
-- The ring where bytes are put in and taken out by others, between the start pointers and the moves of
-- the positions: the sizes that those see, and what a move does to the contents.
use mmotcpfighter.Base.{
  ℕ, ◌+◌, ◌-◌, ◌%◌, ◌≤◌, ◌<◌, ◌≡◌, refl, ap, ap₂, sym, ◌∙◌, true, false, ◌&&◌, leb, ltb, drop, ◌++◌,
  tabulate_ext, tabulate_add, length-tabulate, drop_of_append, arith, ok, err, out_of_bounds,
}
use mmotcpfighter.Memory.{Block, memcpy}
use mmotcpfighter.Ring.{
  Ring, actual_size, move_pos, get_use_size, get_free_size, direct_dequeue_size,
  direct_enqueue_size, move_in_pos, move_out_pos, dequeue,
}
use mmotcpfighter.Ring.Valid.{IsValid, contents, arc}

-- The sizes, where one segment is enough and where it takes two.
module _ {r : Ring} (v : IsValid r) where
  pub send_fits : get_use_size r ≤ direct_dequeue_size r → r.out_pos + get_use_size r ≤ actual_size
  unfolding get_use_size direct_dequeue_size
  send_fits h = ground arith

  pub send_wraps :
      leb (get_use_size r) (direct_dequeue_size r) ≡ false
      → (r.out_pos + direct_dequeue_size r ≡ actual_size)
        × (get_use_size r - direct_dequeue_size r ≤ actual_size)
        × (direct_dequeue_size r + (get_use_size r - direct_dequeue_size r) ≡ get_use_size r)
  unfolding get_use_size direct_dequeue_size
  send_wraps h = ground arith

  pub recv_fits : get_free_size r ≤ direct_enqueue_size r → r.in_pos + get_free_size r ≤ actual_size
  unfolding get_free_size get_use_size direct_enqueue_size
  recv_fits h = ground arith

  pub recv_wraps :
      leb (get_free_size r) (direct_enqueue_size r) ≡ false
      → (r.in_pos + direct_enqueue_size r ≡ actual_size)
        × (get_free_size r - direct_enqueue_size r ≤ actual_size)
        × (direct_enqueue_size r + (get_free_size r - direct_enqueue_size r) ≡ get_free_size r)
  unfolding get_free_size get_use_size direct_enqueue_size
  recv_wraps h = ground arith

module _ {r : Ring} (n : ℕ) (v : IsValid r) (h : n ≤ get_use_size r) where
  abbrev pub sent_ring : Ring
  sent_ring = record r { out_pos = move_pos r.out_pos n }

  pub move_out_pos-ok : move_out_pos r n ≡ ok (move_pos r.out_pos n, sent_ring)
  unfolding move_out_pos get_use_size
  move_out_pos-ok = ground arith

  pub sent_ring-IsValid : IsValid sent_ring
  sent_ring-IsValid = record { in_range = v.in_range; out_range = omega arith; whole = v.whole }

  use_size-sent_ring : get_use_size r ≡ n + get_use_size sent_ring
  unfolding get_use_size
  use_size-sent_ring = ground arith

  pub contents-sent_ring : contents sent_ring ≡ drop n (contents r)
  contents-sent_ring = sym (
      rw (use_size-sent_ring, tabulate_add n)
        (drop_of_append n _ _ (length-tabulate n _)
          ∙ tabulate_ext (get_use_size sent_ring) _ _ (λ k lt. ap r.buffer.byte (omega arith))))

-- The ring after `n` bytes have come in behind its contents, where `b` is what its buffer then holds:
-- the bytes that waited are as before.
module _ {r : Ring} (b : Block) (n : ℕ) (v : IsValid r) (room : n ≤ get_free_size r)
    (size : b.size ≡ actual_size)
    (kept : (k : ℕ)
      → k < get_use_size r
      → b.byte ((r.out_pos + k) % actual_size)
        ≡ r.buffer.byte ((r.out_pos + k) % actual_size)) where
  abbrev pub received_ring : Ring
  received_ring = record { out_pos = r.out_pos; in_pos = move_pos r.in_pos n; buffer = b }

  pub received_ring-IsValid : IsValid received_ring
  received_ring-IsValid = record { in_range = omega arith; out_range = v.out_range; whole = size }

  pub move_in_pos-eq :
      move_in_pos (record r { buffer = b }) n ≡ (move_pos r.in_pos n, received_ring)
  unfolding move_in_pos
  move_in_pos-eq = refl

  use_size-received_ring : get_use_size received_ring ≡ get_use_size r + n
  unfolding get_free_size get_use_size
  use_size-received_ring = ground arith

  behind :
      (k : ℕ)
      → b.byte ((r.out_pos + (get_use_size r + k)) % actual_size)
        ≡ b.byte ((r.in_pos + k) % actual_size)
  unfolding get_use_size
  behind k = ap b.byte (ground arith)

  pub contents-received_ring : contents received_ring ≡ contents r ++ arc b r.in_pos n
  contents-received_ring =
      rw (use_size-received_ring, tabulate_add (get_use_size r))
        (ap₂ ◌++◌ (tabulate_ext (get_use_size r) _ _ kept) (tabulate_ext n _ _ (λ k _. behind k)))

-- No byte that waits lies in the room that `RecvProc` offers: the one stretch, or either of two.
module _ {r : Ring} (k : ℕ) (v : IsValid r) (lt : k < get_use_size r) where
  pub outside_one :
      leb (get_free_size r) (direct_enqueue_size r) ≡ true
      → leb r.in_pos ((r.out_pos + k) % actual_size)
          && ltb ((r.out_pos + k) % actual_size) (r.in_pos + get_free_size r)
        ≡ false
  unfolding get_free_size get_use_size direct_enqueue_size
  outside_one h = ground arith

  pub outside_two :
      leb (get_free_size r) (direct_enqueue_size r) ≡ false
      → (leb r.in_pos ((r.out_pos + k) % actual_size)
            && ltb ((r.out_pos + k) % actual_size) (r.in_pos + direct_enqueue_size r)
          ≡ false)
        × (leb 0 ((r.out_pos + k) % actual_size)
              && ltb ((r.out_pos + k) % actual_size) (0 + (get_free_size r - direct_enqueue_size r))
            ≡ false)
  unfolding get_free_size get_use_size direct_enqueue_size
  outside_two h = (ground arith, ground arith)

-- A target that is too small for the bytes that are there.
pub dequeue_small :
    {r : Ring} (dest : Block) (n : ℕ)
    → IsValid r
    → n ≤ get_use_size r
    → dest.size < n
    → dequeue r dest n ≡ err out_of_bounds
unfolding dequeue direct_dequeue_size get_use_size memcpy
dequeue_small dest n v h small = ground arith
