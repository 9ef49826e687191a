-- ===== src/Sector.antt =====
-- Sector.h: the map is a grid of 40 by 40 sectors, and a client sees its own sector and those
-- around it. Here are the functions on sectors alone; those on the clients in them are in `World`.
-- A `SHORT` that is assigned from an `int` keeps what `to_short` says.
pub mod Members
pub mod Move
mod Tests
use mmotcpfighter.Base.{
  ℕ, zero, suc, ◌+◌, ◌-◌, ◌*◌, ◌/◌, ◌%◌, Bool, true, false, ◌&&◌, List, [], ◌∷◌, ◌++◌, ◌==◌,
  if◌then◌else◌, ℤ, pos, negsuc, ◌+ℤ◌, ◌-ℤ◌, ◌*ℤ◌, ltb, ltb_ℤ, leb_ℤ, eq_ℤ, div_ℤ, to_short,
  Outcome, ok, err, ◌>>=◌, out_of_bounds, debug_break,
}
use mmotcpfighter.Position.{Pos, SectorPos, same_yx}
use mmotcpfighter.Direction.{DirVector, at, vectors, sector_move_dirs}

abbrev pub range_move_top : ℕ
range_move_top = 0

abbrev pub range_move_left : ℕ
range_move_left = 0

abbrev pub range_move_right : ℕ
range_move_right = 6400

abbrev pub range_move_bottom : ℕ
range_move_bottom = 6400

abbrev pub sector_width : ℕ
sector_width = 160

abbrev pub sector_height : ℕ
sector_height = 160

abbrev pub num_of_sector_horizon : ℕ
num_of_sector_horizon = 6400 / 160

abbrev pub num_of_sector_vertical : ℕ
num_of_sector_vertical = 6400 / 160

abbrev pub sector_pos : ℤ → ℤ → SectorPos
sector_pos y x = record { y = y; x = x }

-- Both overloads of `IsValidSector`.
unfoldable pub is_valid_sector : SectorPos → Bool
is_valid_sector sp =
    let valid_vertical = leb_ℤ (pos 0) sp.y && ltb_ℤ sp.y (pos num_of_sector_vertical) in
    let valid_horizon = leb_ℤ (pos 0) sp.x && ltb_ℤ sp.x (pos num_of_sector_horizon) in
    valid_vertical && valid_horizon

-- An index into an array, which may be negative.
abbrev pub at_ℤ {ℓ} : {A : Type ℓ} → List A → ℤ → Outcome A
at_ℤ xs (pos n) = at xs n
at_ℤ xs (negsuc _) = err out_of_bounds

abbrev index_below : ℕ → ℤ → Outcome ℕ
index_below n (pos i) = if ltb i n then ok i else err out_of_bounds
index_below n (negsuc _) = err out_of_bounds

-- The indices of a sector in `g_Sector`.
unfoldable pub grid_index : SectorPos → Outcome (ℕ × ℕ)
grid_index sp = do
  y ← index_below num_of_sector_vertical sp.y
  x ← index_below num_of_sector_horizon sp.x
  ok (y, x)

unfoldable pub get_sector_move_dir : SectorPos → SectorPos → Outcome ℕ
get_sector_move_dir old_sector new_sector = do
  let comp_x = to_short (new_sector.x -ℤ old_sector.x)
  let comp_y = to_short (new_sector.y -ℤ old_sector.y)
  row ← at_ℤ sector_move_dirs (comp_y +ℤ pos 1)
  dir ← at_ℤ row (comp_x +ℤ pos 1)
  if dir == 8 then err debug_break else ok dir

-- `IsSameSector` on two positions; the overload on four numbers is not called.
abbrev pub is_same_sector : SectorPos → SectorPos → Bool
is_same_sector = same_yx

-- Both overloads of `IsValidPos`.
unfoldable pub is_valid_pos : Pos → Bool
is_valid_pos p =
    let valid_y = leb_ℤ (pos range_move_top) p.y && ltb_ℤ p.y (pos range_move_bottom) in
    let valid_x = leb_ℤ (pos range_move_left) p.x && ltb_ℤ p.x (pos range_move_right) in
    valid_y && valid_x

unfoldable pub calc_sector : Pos → SectorPos
calc_sector p = sector_pos (div_ℤ p.y sector_height) (div_ℤ p.x sector_width)

-- A sector moved by a vector, as `SHORT`s.
unfoldable pub offset_sector : SectorPos → DirVector → SectorPos
offset_sector sp v = sector_pos (to_short (sp.y +ℤ v.y)) (to_short (sp.x +ℤ v.x))

-- `GetDeltaSector`: up to `n` sectors around the base sector, from direction `dir` on, clockwise;
-- those outside the map are left out.
unfoldable pub get_delta_sector : ℕ → SectorPos → ℕ → Outcome (List SectorPos)
get_delta_sector zero base dir = ok []
get_delta_sector (suc n) base dir = do
  v ← at vectors dir
  let sp = offset_sector base v
  rest ← get_delta_sector n base ((dir + 1) % 8)
  ok (if is_valid_sector sp then sp ∷ rest else rest)

-- The inner loop of `GetSectorAround` on a position: the sectors of one row.
unfoldable pub around_row : ℤ → ℤ → List ℤ → List SectorPos
around_row y x [] = []
around_row y x (dx ∷ dxs) =
    let sp = sector_pos y (x +ℤ dx) in
    let rest = around_row y x dxs in if is_valid_sector sp then sp ∷ rest else rest

-- Its outer loop.
unfoldable pub around_rows : SectorPos → List ℤ → List ℤ → List SectorPos
around_rows c dxs [] = []
around_rows c dxs (dy ∷ dys) = around_row (c.y +ℤ dy) c.x dxs ++ around_rows c dxs dys

-- `GetSectorAround(SHORT, SHORT, …)`.
unfoldable pub get_sector_around : Pos → List SectorPos
get_sector_around p =
    let steps = negsuc 0 ∷ pos 0 ∷ pos 1 ∷ [] in around_rows (calc_sector p) steps steps
