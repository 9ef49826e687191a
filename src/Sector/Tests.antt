-- ===== src/Sector/Tests.antt =====
-- Moves between sectors in the middle of the map.
use mmotcpfighter.Base.{ℕ, ◌≡◌, ok, arith}
use mmotcpfighter.Sector.{get_sector_move_dir}
use mmotcpfighter.Sector.Move.{sector_at, Leads, get_sector_move_dir_near}

get_sector_move_dir_near_example :
    (dir : ℕ) × (get_sector_move_dir (sector_at 5 7) (sector_at 4 8) ≡ ok dir)
    × Leads (sector_at 5 7) (sector_at 4 8) dir
get_sector_move_dir_near_example =
    get_sector_move_dir_near 5 7 4 8 (omega arith) (omega arith) (omega arith) (omega arith)
      (omega arith, omega arith) (omega arith, omega arith) (λ h. omega arith)
