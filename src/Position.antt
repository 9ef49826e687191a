-- ===== src/Position.antt =====
-- Position.h: positions on the map and of sectors, two `SHORT`s each. The union's third view, `YX`,
-- is read only to compare two positions or to copy one whole.
use mmotcpfighter.Base.{ℕ, ℤ, pos, Bool, ◌&&◌, eq_ℤ, IsShort}

pub record Pos : Type 0 where
  pub y : ℤ
  pub x : ℤ

pub record SectorPos : Type 0 where
  pub y : ℤ
  pub x : ℤ

-- A position with coordinates that are not negative.
abbrev pub at_yx : ℕ → ℕ → Pos
at_yx y x = record { y = pos y; x = pos x }

-- `a.YX == b.YX`
abbrev pub same_yx : SectorPos → SectorPos → Bool
same_yx a b = eq_ℤ a.y b.y && eq_ℤ a.x b.x

pub record PosInRange (p : Pos) : Type 0 where
  pub y_short : IsShort p.y
  pub x_short : IsShort p.x
