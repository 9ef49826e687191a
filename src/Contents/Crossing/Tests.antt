-- ===== src/Contents/Crossing/Tests.antt =====
-- A step up and to the right, seen from a sector that goes out of view, and one that comes into it.
use mmotcpfighter.Base.{ℕ, List, not, ◌&&◌, ◌≡◌, refl, pos, negsuc, ◌+ℤ◌, to_short, ok, arith}
use mmotcpfighter.Position.{SectorPos}
use mmotcpfighter.Direction.{vector, at, remove_dirs, add_dirs}
use mmotcpfighter.Sector.{offset_sector, get_delta_sector}
use mmotcpfighter.Sector.Move.{sector_at, Leads}
use mmotcpfighter.Sector.Members.{is_among}
use mmotcpfighter.Contents.Crossing.{delta_sector_num}
use mmotcpfighter.Contents.Crossing.Steps.{is_around}
use mmotcpfighter.Contents.Crossing.View.{remove_dirs_lem, add_dirs_lem}

up_right : Leads (sector_at 5 7) (sector_at 4 8) 3
unfolding offset_sector to_short ◌+ℤ◌
up_right = (vector (negsuc 0) (pos 1), refl, refl)

remove_dirs_lem_example :
    (first : ℕ) × (l : List SectorPos) × (at remove_dirs 3 ≡ ok first)
    × (get_delta_sector (delta_sector_num 3) (sector_at 5 7) first ≡ ok l)
    × (is_among (sector_at 6 8) l ≡ (is_around 6 8 5 7 && not (is_around 6 8 4 8)))
remove_dirs_lem_example =
    remove_dirs_lem 5 7 4 8 (omega arith) (omega arith) 6 8 (omega arith) (omega arith) 3 up_right

add_dirs_lem_example :
    (first : ℕ) × (l : List SectorPos) × (at add_dirs 3 ≡ ok first)
    × (get_delta_sector (delta_sector_num 3) (sector_at 4 8) first ≡ ok l)
    × (is_among (sector_at 3 9) l ≡ (is_around 3 9 4 8 && not (is_around 3 9 5 7)))
add_dirs_lem_example =
    add_dirs_lem 5 7 4 8 (omega arith) (omega arith) 3 9 (omega arith) (omega arith) (omega arith)
      (omega arith) 3 up_right
