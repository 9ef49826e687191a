-- ===== src/Contents/Movement/Tests.antt =====
-- A client that claims to stand three sectors to the right.
use mmotcpfighter.Base.{◌≡◌, refl, pos, ltb, ◌-ℤ◌, nat_abs, err, out_of_bounds, arith}
use mmotcpfighter.Position.{at_yx}
use mmotcpfighter.Memory.{new_block}
use mmotcpfighter.Ring.{Ring, actual_size}
use mmotcpfighter.World.Sample.{server_with}
use mmotcpfighter.Contents.Movement.{error_range, is_sync, cs_move_start}
use mmotcpfighter.Contents.Movement.Sync.{is_sync-rows, cs_move_start_far}

is_sync-rows_example :
    is_sync (at_yx 100 100) (at_yx 120 5000) ≡ ltb error_range (nat_abs (pos 100 -ℤ pos 120))
is_sync-rows_example = is_sync-rows (at_yx 100 100) (at_yx 120 5000)

abbrev ring : Ring
ring = record { out_pos = 0; in_pos = 0; buffer = new_block actual_size }

cs_move_start_far_example : cs_move_start 1 4 (at_yx 10 500) (server_with ring) ≡ err out_of_bounds
cs_move_start_far_example =
    cs_move_start_far (server_with ring) 1 4 10 10 10 500 (λ h. omega arith) (omega arith)
      (λ h. omega arith) (λ h. omega arith) refl (omega arith) (omega arith) (omega arith)
      (omega arith) (omega arith) (omega arith) (λ h. omega arith)
