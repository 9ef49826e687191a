-- ===== src/Contents/Attack/Tests.antt =====
-- An attack to the left that reaches into the next sector and the one above.
use mmotcpfighter.Base.{◌≡◌, refl, true, ◌-ℤ◌, ◌+ℤ◌, arith}
use mmotcpfighter.Position.{at_yx}
use mmotcpfighter.Sector.{calc_sector}
use mmotcpfighter.Sector.Members.{is_among}
use mmotcpfighter.Contents.Attack.{attack1_range, is_ll_collide, collision_sectors}
use mmotcpfighter.Contents.Attack.Reach.{is_among-collision_sectors}

is_among-collision_sectors_example :
    is_among (calc_sector (at_yx 158 150)) (collision_sectors (at_yx 161 165) 0 attack1_range)
    ≡ true
unfolding is_ll_collide ◌-ℤ◌ ◌+ℤ◌
is_among-collision_sectors_example =
    is_among-collision_sectors 161 165 158 150 0 attack1_range (omega arith) (omega arith)
      (omega arith) (omega arith) (omega arith) (omega arith) refl
