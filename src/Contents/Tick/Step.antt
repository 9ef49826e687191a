-- ===== src/Contents/Tick/Step.antt =====
-- A step of the walk in `Update`, from a position on the map to another.
use mmotcpfighter.Base.{
  ℕ, zero, suc, ◌/◌, ◌<◌, ◌≡◌, refl, Bool, subst, leb_ℤ, ltb_ℤ, true, false, ◌&&◌, List, [], ◌∷◌, ℤ,
  pos, negsuc, ◌+ℤ◌, ◌*ℤ◌, div_ℤ, arith, to_short, short_pattern, of_short_pattern, ok,
}
use mmotcpfighter.Position.{at_yx}
use mmotcpfighter.Direction.{DirVector, vectors, at}
use mmotcpfighter.Sector.{calc_sector, is_valid_pos, is_same_sector, get_sector_move_dir}
use mmotcpfighter.Sector.Move.{IsNear, Leads, get_sector_move_dir_near}
use mmotcpfighter.Contents.Tick.{step_position}

-- One coordinate of a direction's vector.
data IsUnit (d : ℤ) : Type 0 where
  minus : d ≡ negsuc 0 → IsUnit d
  none : d ≡ pos 0 → IsUnit d
  plus : d ≡ pos 1 → IsUnit d

abbrev AreUnit : List DirVector → Type 0
AreUnit [] = Unit {0}
AreUnit (v ∷ vs) = (IsUnit v.y × IsUnit v.x) × AreUnit vs

at-AreUnit :
    (vs : List DirVector) (i : ℕ) (v : DirVector)
    → AreUnit vs
    → at vs i ≡ ok v
    → IsUnit v.y × IsUnit v.x
at-AreUnit [] i v us e = absurd (cc)
at-AreUnit (x ∷ vs) zero v us e =
    let same : x ≡ v = cc in subst (λ w. IsUnit w.y × IsUnit w.x) same us.0
at-AreUnit (x ∷ vs) (suc i) v us e = at-AreUnit vs i v us.1 e

vectors-AreUnit : AreUnit vectors
vectors-AreUnit = (
  (none refl, minus refl),
  (
    (minus refl, minus refl),
    (
      (minus refl, none refl),
      (
        (minus refl, plus refl),
        (
          (none refl, plus refl),
          ((plus refl, plus refl), ((plus refl, none refl), ((plus refl, minus refl), tt))),
        ),
      ),
    ),
  ),
)

and_left : (a b : Bool) → (a && b) ≡ true → a ≡ true
and_left true b h = refl
and_left false b h = absurd (cc)

and_right : (a b : Bool) → (a && b) ≡ true → b ≡ true
and_right true b h = h
and_right false b h = absurd (cc)

on_map :
    (z : ℤ) → (leb_ℤ (pos 0) z && ltb_ℤ z (pos 6400)) ≡ true → (n : ℕ) × (z ≡ pos n) × (n < 6400)
on_map (pos n) h = (n, refl, ground arith)
on_map (negsuc n) h = absurd (ground arith)

-- A step below the size of a sector, down, up, or none.
module _ (c n : ℕ) (hc : c < 6400) (hn : n < 6400) where
  IsNear-y :
      (d : ℤ) → IsUnit d → to_short (pos c +ℤ d *ℤ pos 4) ≡ pos n → IsNear (c / 160) (n / 160)
  unfolding to_short short_pattern of_short_pattern ◌+ℤ◌ ◌*ℤ◌
  IsNear-y d (minus u) e =
      let h : to_short (pos c +ℤ negsuc 0 *ℤ pos 4) ≡ pos n = rw u at e in ground arith
  IsNear-y d (none u) e =
      let h : to_short (pos c +ℤ pos 0 *ℤ pos 4) ≡ pos n = rw u at e in ground arith
  IsNear-y d (plus u) e =
      let h : to_short (pos c +ℤ pos 1 *ℤ pos 4) ≡ pos n = rw u at e in ground arith

  IsNear-x :
      (d : ℤ) → IsUnit d → to_short (pos c +ℤ d *ℤ pos 6) ≡ pos n → IsNear (c / 160) (n / 160)
  unfolding to_short short_pattern of_short_pattern ◌+ℤ◌ ◌*ℤ◌
  IsNear-x d (minus u) e =
      let h : to_short (pos c +ℤ negsuc 0 *ℤ pos 6) ≡ pos n = rw u at e in ground arith
  IsNear-x d (none u) e =
      let h : to_short (pos c +ℤ pos 0 *ℤ pos 6) ≡ pos n = rw u at e in ground arith
  IsNear-x d (plus u) e =
      let h : to_short (pos c +ℤ pos 1 *ℤ pos 6) ≡ pos n = rw u at e in ground arith

module _ (y x dir : ℕ) (v : DirVector) (hy : y < 6400) (hx : x < 6400)
    (known : at vectors dir ≡ ok v)
    (valid : is_valid_pos (step_position (at_yx y x) v) ≡ true) where
  -- A step from a position on the map that `Update` accepts leads to one on the map, in the same sector
  -- or one beside it.
  pub step_position-IsNear :
      (y' : ℕ) × (x' : ℕ) × (step_position (at_yx y x) v ≡ at_yx y' x')
      × (y' < 6400)
      × (x' < 6400)
      × IsNear (y / 160) (y' / 160)
      × IsNear (x / 160) (x' / 160)
  unfolding step_position is_valid_pos
  step_position-IsNear =
      let (uy, ux) = at-AreUnit vectors dir v vectors-AreUnit known in
      let (y', ey, ly) = on_map _ (and_left _ _ valid) in
      let (x', ex, lx) = on_map _ (and_right _ _ valid) in
      (
        y',
        x',
        (λ i. record { y = ey i; x = ex i }),
        ly,
        lx,
        IsNear-y y y' hy ly v.y uy ey,
        IsNear-x x x' hx lx v.x ux ex,
      )

  -- Where it leads to another sector, `GetSectorMoveDir` returns the direction.
  pub step_move_dir :
      is_same_sector (calc_sector (at_yx y x)) (calc_sector (step_position (at_yx y x) v)) ≡ false
      → (d : ℕ) × (get_sector_move_dir
            (calc_sector (at_yx y x))
            (calc_sector (step_position (at_yx y x) v))
          ≡ ok d)
        × Leads (calc_sector (at_yx y x)) (calc_sector (step_position (at_yx y x) v)) d
  unfolding calc_sector div_ℤ
  step_move_dir other =
      let (y', x', e, ly, lx, ny, nx) = step_position-IsNear in
      let apart : is_same_sector (calc_sector (at_yx y x)) (calc_sector (at_yx y' x')) ≡ false =
        rw e at other in
      rw e (
        get_sector_move_dir_near (y / 160) (x / 160) (y' / 160) (x' / 160) (omega arith)
          (omega arith) (omega arith) (omega arith) ny nx (λ h. ground arith))
