-- ===== src/Contents/Crossing/Steps.antt =====
-- The sectors at unit steps from another, by their rows and columns.
use mmotcpfighter.Base.{
  ℕ, zero, suc, ◌+◌, ◌%◌, ◌<◌, ◌≡◌, refl, ap₂, ◌∙◌, Bool, true, false, not, ◌&&◌, ◌||◌, leb, ◌==◌,
  if◌then◌else◌, List, [], ◌∷◌, ℤ, pos, negsuc, eq_ℤ, ◌+ℤ◌, to_short, short_pattern,
  of_short_pattern, arith, Outcome, ok, err,
}
use mmotcpfighter.Position.{SectorPos, same_yx}
use mmotcpfighter.Direction.{DirVector, vector, at, vectors}
use mmotcpfighter.Sector.{is_valid_sector, offset_sector}
use mmotcpfighter.Sector.Move.{sector_at}
use mmotcpfighter.Sector.Members.{is_among}

-- One row or column, a unit step off another.
abbrev pub is_step : ℕ → ℕ → ℤ → Bool
is_step s b (pos zero) = s == b
is_step s b (pos (suc _)) = s == (b + 1)
is_step s b (negsuc _) = (s + 1) == b

abbrev pub is_unit : ℤ → Bool
is_unit (pos zero) = true
is_unit (pos (suc zero)) = true
is_unit (pos (suc (suc _))) = false
is_unit (negsuc zero) = true
is_unit (negsuc (suc _)) = false

pub step_lem :
    (s b : ℕ) (d : ℤ)
    → b < 40
    → is_unit d ≡ true
    → eq_ℤ (pos s) (to_short (pos b +ℤ d)) ≡ is_step s b d
unfolding to_short short_pattern of_short_pattern ◌+ℤ◌
step_lem s b (pos zero) lt u = ground arith
step_lem s b (pos (suc zero)) lt u = ground arith
step_lem s b (pos (suc (suc n))) lt u = absurd (cc)
step_lem s b (negsuc zero) lt u = ground arith
step_lem s b (negsuc (suc n)) lt u = absurd (cc)

-- The sectors at some vectors from a base, where those outside the map are left out, and what the
-- vectors say of a sector.
unfoldable pub guarded : List DirVector → SectorPos → List SectorPos
guarded [] base = []
guarded (v ∷ vs) base =
    let sp = offset_sector base v in
    let rest = guarded vs base in if is_valid_sector sp then sp ∷ rest else rest

abbrev pub is_hit : ℕ → ℕ → ℕ → ℕ → List DirVector → Bool
is_hit sy sx y x [] = false
is_hit sy sx y x (v ∷ vs) = (is_step sy y v.y && is_step sx x v.x) || is_hit sy sx y x vs

abbrev pub are_units : List DirVector → Bool
are_units [] = true
are_units (v ∷ vs) = is_unit v.y && (is_unit v.x && are_units vs)

among_if :
    (sy sx : ℕ) (q : SectorPos) (rest : List SectorPos)
    → sy < 40
    → sx < 40
    → is_among (sector_at sy sx) (if is_valid_sector q then q ∷ rest else rest)
      ≡ (same_yx (sector_at sy sx) q || is_among (sector_at sy sx) rest)
unfolding is_among is_valid_sector
among_if sy sx q rest hy hx = ground arith

pub and_split : (a b c : Bool) → (a && (b && c)) ≡ true → (a ≡ true) × (b ≡ true) × (c ≡ true)
and_split true true c h = (refl, refl, h)
and_split true false c h = absurd (cc)
and_split false b c h = absurd (cc)

module _ (sy sx y x : ℕ) (hsy : sy < 40) (hsx : sx < 40) (hy : y < 40) (hx : x < 40) where
  pub is_among-guarded :
      (vs : List DirVector)
      → are_units vs ≡ true
      → is_among (sector_at sy sx) (guarded vs (sector_at y x)) ≡ is_hit sy sx y x vs
  unfolding guarded is_among offset_sector
  is_among-guarded [] u = refl
  is_among-guarded (v ∷ vs) u =
      let (uy, ux, us) = and_split _ _ _ u in
      among_if sy sx _ _ hsy hsx
      ∙ ap₂ ◌||◌ (ap₂ ◌&&◌ (step_lem sy y v.y hy uy) (step_lem sx x v.x hx ux))
          (is_among-guarded vs us)

abbrev pub is_near : ℕ → ℕ → Bool
is_near a b = leb a (b + 1) && leb b (a + 1)

-- Around a sector, with itself.
abbrev pub is_around : ℕ → ℕ → ℕ → ℕ → Bool
is_around sy sx y x = is_near sy y && is_near sx x

abbrev pub vector_of : Outcome DirVector → DirVector
vector_of (ok v) = v
vector_of (err _) = vector (pos 0) (pos 0)

-- The vectors of `n` directions, clockwise.
abbrev pub turn : ℕ → ℕ → List DirVector
turn zero dir = []
turn (suc n) dir = vector_of (at vectors dir) ∷ turn n ((dir + 1) % 8)

-- The five sectors of a move across a corner.
module _ (sy sx b c : ℕ) where
  pub corner_lu :
      is_hit sy sx b c (turn 5 7) ≡ (is_around sy sx b c && not (is_around sy sx (b + 1) (c + 1)))
  corner_lu = ground arith

  pub corner_ru :
      is_hit sy sx b (c + 1) (turn 5 1)
      ≡ (is_around sy sx b (c + 1) && not (is_around sy sx (b + 1) c))
  corner_ru = ground arith

  pub corner_rd :
      is_hit sy sx (b + 1) (c + 1) (turn 5 3)
      ≡ (is_around sy sx (b + 1) (c + 1) && not (is_around sy sx b c))
  corner_rd = ground arith

  pub corner_ld :
      is_hit sy sx (b + 1) c (turn 5 5)
      ≡ (is_around sy sx (b + 1) c && not (is_around sy sx b (c + 1)))
  corner_ld = ground arith

pub eq_self : (n : ℕ) → eq_ℤ (pos n) (pos n) ≡ true
eq_self n = ground arith
