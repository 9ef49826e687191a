-- ===== src/Contents/Tick/Tests.antt =====
-- A step down and to the right, into the next sector.
use mmotcpfighter.Base.{ℕ, ◌/◌, ◌<◌, ◌≡◌, refl, pos, ok, to_short, ◌+ℤ◌, ◌*ℤ◌, div_ℤ, arith}
use mmotcpfighter.Direction.{vector}
use mmotcpfighter.Position.{at_yx}
use mmotcpfighter.Sector.{calc_sector, get_sector_move_dir, is_valid_pos}
use mmotcpfighter.Sector.Move.{IsNear, Leads}
use mmotcpfighter.Contents.Tick.{step_position}
use mmotcpfighter.Contents.Tick.Step.{step_position-IsNear, step_move_dir}

step_position-IsNear_example :
    (y' : ℕ) × (x' : ℕ) × (step_position (at_yx 158 10) (vector (pos 1) (pos 1)) ≡ at_yx y' x')
    × (y' < 6400)
    × (x' < 6400)
    × IsNear 0 (y' / 160)
    × IsNear 0 (x' / 160)
unfolding step_position is_valid_pos to_short ◌+ℤ◌ ◌*ℤ◌
step_position-IsNear_example =
    step_position-IsNear 158 10 5 (vector (pos 1) (pos 1)) (omega arith) (omega arith) refl refl

step_move_dir_example :
    (d : ℕ) × (get_sector_move_dir
        (calc_sector (at_yx 158 10))
        (calc_sector (step_position (at_yx 158 10) (vector (pos 1) (pos 1))))
      ≡ ok d)
    × Leads
        (calc_sector (at_yx 158 10))
        (calc_sector (step_position (at_yx 158 10) (vector (pos 1) (pos 1))))
        d
unfolding step_position is_valid_pos calc_sector to_short ◌+ℤ◌ ◌*ℤ◌ div_ℤ
step_move_dir_example =
    step_move_dir 158 10 5 (vector (pos 1) (pos 1)) (omega arith) (omega arith) refl refl refl
