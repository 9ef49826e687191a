-- ===== src/Ring/Settles.antt =====
-- The methods of the ring are loops of no kind: none reports that its fuel ran out.
use mmotcpfighter.Base.{ℕ, Settles, arith}
use mmotcpfighter.Memory.{Block, memcpy}
use mmotcpfighter.Ring.{Ring, enqueue, peek, move_out_pos}

pub enqueue-Settles : (r : Ring) (source : Block) (n : ℕ) → Settles (enqueue r source n)
unfolding enqueue memcpy
enqueue-Settles r source n = record { apply = λ h. ground arith }

pub peek-Settles : (r : Ring) (target : Block) (n : ℕ) → Settles (peek r target n)
unfolding peek memcpy
peek-Settles r target n = record { apply = λ h. ground arith }

pub move_out_pos-Settles : (r : Ring) (n : ℕ) → Settles (move_out_pos r n)
unfolding move_out_pos
move_out_pos-Settles r n = record { apply = λ h. ground arith }
