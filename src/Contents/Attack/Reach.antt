-- ===== src/Contents/Attack/Reach.antt =====
-- The sectors in which an attack looks for a victim: everyone who can be hit is in one of them, and all
-- of them are on the map.
use mmotcpfighter.Base.{
  ℕ, ◌+◌, ◌-◌, ◌/◌, ◌<◌, ◌≡◌, ◌≢◌, ◌⊎◌, inl, inr, true, false, not, ◌&&◌, ◌==◌, List, ◌∷◌, ◌++◌,
  if◌then◌else◌, pos, ◌+ℤ◌, ◌-ℤ◌, eq_ℤ, div_ℤ, to_short, short_pattern, of_short_pattern, arith,
  Bool-cases,
}
use mmotcpfighter.Position.{at_yx, SectorPos}
use mmotcpfighter.Direction.{dir_ll}
use mmotcpfighter.Sector.{sector_pos, is_valid_sector, calc_sector}
use mmotcpfighter.Sector.Members.{is_among, are_valid, among_later, among_left, among_right}
use mmotcpfighter.Contents.Attack.{
  Range, is_ll_collide, is_rr_collide, collides, collision_sectors, to_sector, with_side,
  without_side,
}

-- The sector of a coordinate that the range is taken from, or added to.
to_sector_less : (a r : ℕ) → a < 6400 → r < 160 → to_sector (pos a -ℤ pos r) ≡ pos ((a - r) / 160)
unfolding to_short short_pattern of_short_pattern ◌-ℤ◌ div_ℤ
to_sector_less a r ha hr = ground arith

to_sector_more : (a r : ℕ) → a < 6400 → r < 160 → to_sector (pos a +ℤ pos r) ≡ pos ((a + r) / 160)
unfolding to_short short_pattern of_short_pattern ◌+ℤ◌ div_ℤ
to_sector_more a r ha hr = ground arith

-- The sectors searched, given those of the attacker, of the side, above and below.
abbrev searched : ℕ → ℕ → ℕ → ℕ → ℕ → List SectorPos
searched oy ox side up down =
    let o = sector_pos (pos oy) (pos ox) in
    if is_valid_sector (sector_pos o.y (pos side)) && not (eq_ℤ o.x (pos side))
    then o
      ∷ sector_pos o.y (pos side)
      ∷ (with_side o (pos side) (pos up) ++ with_side o (pos side) (pos down))
    else o ∷ (without_side o (pos up) ++ without_side o (pos down))

module _ (oy ox side up down : ℕ) (hy : oy < 40) (hx : ox < 40) where
  searched-valid : are_valid (searched oy ox side up down) ≡ true
  unfolding are_valid is_valid_sector
  searched-valid = ground arith

  -- Where the side is searched: its row, and the rows above and below.
  among_row :
      (x : ℕ) (rest : List SectorPos)
      → (x ≡ ox) ⊎ (x ≡ side)
      → is_among
          (sector_pos (pos oy) (pos x))
          (sector_pos (pos oy) (pos ox) ∷ sector_pos (pos oy) (pos side) ∷ rest)
        ≡ true
  unfolding is_among
  among_row x rest p = ground arith

  among-with_side :
      (y x : ℕ)
      → y < 40
      → y ≢ oy
      → (x ≡ ox) ⊎ (x ≡ side)
      → is_among
          (sector_pos (pos y) (pos x))
          (with_side (sector_pos (pos oy) (pos ox)) (pos side) (pos y))
        ≡ true
  unfolding is_among is_valid_sector
  among-with_side y x ly other p = ground arith

  among-without_side :
      (y : ℕ)
      → y < 40
      → y ≢ oy
      → is_among (sector_pos (pos y) (pos ox)) (without_side (sector_pos (pos oy) (pos ox)) (pos y))
        ≡ true
  unfolding is_among is_valid_sector
  among-without_side y ly other = ground arith

  -- Which of the two lists it is.
  side_searched :
      (x : ℕ)
      → x < 40
      → (x ≡ ox) ⊎ (x ≡ side)
      → (is_valid_sector (sector_pos (pos oy) (pos side)) && not (eq_ℤ (pos ox) (pos side))) ≡ false
      → x ≡ ox
  unfolding is_valid_sector
  side_searched x lx p f = ground arith

  among_own :
      (rest : List SectorPos)
      → is_among (sector_pos (pos oy) (pos ox)) (sector_pos (pos oy) (pos ox) ∷ rest) ≡ true
  unfolding is_among
  among_own rest = ground arith

module _ (oy ox side up down y x : ℕ) (hy : oy < 40) (hx : ox < 40) (ly : y < 40) (lx : x < 40)
    (p : (x ≡ ox) ⊎ (x ≡ side)) where
  among_wide :
      (rest : List SectorPos)
      → (y ≢ oy → is_among (sector_pos (pos y) (pos x)) rest ≡ true)
      → is_among
          (sector_pos (pos y) (pos x))
          (sector_pos (pos oy) (pos ox) ∷ sector_pos (pos oy) (pos side) ∷ rest)
        ≡ true
  among_wide rest h = elim (Bool-cases (y == oy)) [
    | inl e ↦
        let same : oy ≡ y = ground arith in
        rw (← same) (among_row oy ox side up down hy hx x rest p)
    | inr e ↦ among_later _ _ _ (among_later _ _ _ (h (λ same. ground arith)))
  ]

  among_narrow :
      (rest : List SectorPos)
      → (y ≢ oy → is_among (sector_pos (pos y) (pos ox)) rest ≡ true)
      → is_among (sector_pos (pos y) (pos ox)) (sector_pos (pos oy) (pos ox) ∷ rest) ≡ true
  among_narrow rest h = elim (Bool-cases (y == oy)) [
    | inl e ↦
        let same : oy ≡ y = ground arith in rw (← same) (among_own oy ox side up down hy hx rest)
    | inr e ↦ among_later _ _ _ (h (λ same. ground arith))
  ]

  among-searched :
      (y ≡ oy) ⊎ ((y ≡ up) ⊎ (y ≡ down))
      → is_among (sector_pos (pos y) (pos x)) (searched oy ox side up down) ≡ true
  among-searched q =
      elim (Bool-cases
        (is_valid_sector (sector_pos (pos oy) (pos side)) && not (eq_ℤ (pos ox) (pos side)))) [
          | inl t ↦ rw t (
              among_wide _ (λ other. elim q [
                | inl e ↦ absurd (other e)
                | inr (inl e) ↦
                    among_left _ (with_side (sector_pos (pos oy) (pos ox)) (pos side) (pos up)) _
                      (rw (← e) (among-with_side oy ox side up down hy hx y x ly other p))
                | inr (inr e) ↦
                    among_right _ (with_side (sector_pos (pos oy) (pos ox)) (pos side) (pos up))
                      (with_side (sector_pos (pos oy) (pos ox)) (pos side) (pos down))
                      (rw (← e) (among-with_side oy ox side up down hy hx y x ly other p))
              ]))
          | inr f ↦
              rw (f, side_searched oy ox side up down hy hx x lx p f)
                (among_narrow _ (λ other. elim q [
                  | inl e ↦ absurd (other e)
                  | inr (inl e) ↦
                      among_left _ (without_side (sector_pos (pos oy) (pos ox)) (pos up)) _
                        (rw (← e) (among-without_side oy ox side up down hy hx y ly other))
                  | inr (inr e) ↦
                      among_right _ (without_side (sector_pos (pos oy) (pos ox)) (pos up))
                        (without_side (sector_pos (pos oy) (pos ox)) (pos down))
                        (rw (← e) (among-without_side oy ox side up down hy hx y ly other))
                ]))
        ]

-- The attacker at `(ay, ax)`, the victim at `(vy, vx)`.
module _ (ay ax vy vx view_dir : ℕ) (r : Range) (hay : ay < 6400) (hax : ax < 6400)
    (hvy : vy < 6400) (hvx : vx < 6400) (ry : r.y < 160) (rx : r.x < 160) where
  left_reach :
      is_ll_collide (at_yx ay ax) (at_yx vy vx) r ≡ true
      → ((vx / 160 ≡ ax / 160) ⊎ (vx / 160 ≡ (ax - r.x) / 160))
        × ((vy / 160 ≡ ay / 160) ⊎ ((vy / 160 ≡ (ay + r.y) / 160) ⊎ (vy / 160 ≡ (ay - r.y) / 160)))
  unfolding is_ll_collide ◌+ℤ◌ ◌-ℤ◌
  left_reach h = (ground arith, ground arith)

  right_reach :
      is_rr_collide (at_yx ay ax) (at_yx vy vx) r ≡ true
      → ((vx / 160 ≡ ax / 160) ⊎ (vx / 160 ≡ (ax + r.x) / 160))
        × ((vy / 160 ≡ ay / 160) ⊎ ((vy / 160 ≡ (ay + r.y) / 160) ⊎ (vy / 160 ≡ (ay - r.y) / 160)))
  unfolding is_rr_collide ◌+ℤ◌ ◌-ℤ◌
  right_reach h = (ground arith, ground arith)

  -- An attack from the map looks into the sector of everyone on the map whom it can hit.
  pub is_among-collision_sectors :
      collides view_dir (at_yx ay ax) (at_yx vy vx) r ≡ true
      → is_among (calc_sector (at_yx vy vx)) (collision_sectors (at_yx ay ax) view_dir r) ≡ true
  unfolding collision_sectors calc_sector div_ℤ
  is_among-collision_sectors h = elim (Bool-cases (view_dir == dir_ll)) [
    | inl l ↦
        let hits : is_ll_collide (at_yx ay ax) (at_yx vy vx) r ≡ true = rw l at h in
        let (p, q) = left_reach hits in
        rw
          (
            l,
            to_sector_less ax r.x hax rx,
            to_sector_more ay r.y hay ry,
            to_sector_less ay r.y hay ry,
          )
          (among-searched (ay / 160) (ax / 160) _ _ _ (vy / 160) (vx / 160) (omega arith)
            (omega arith) (omega arith) (omega arith) p q)
    | inr n ↦
        let hits : is_rr_collide (at_yx ay ax) (at_yx vy vx) r ≡ true = rw n at h in
        let (p, q) = right_reach hits in
        rw
          (
            n,
            to_sector_more ax r.x hax rx,
            to_sector_more ay r.y hay ry,
            to_sector_less ay r.y hay ry,
          )
          (among-searched (ay / 160) (ax / 160) _ _ _ (vy / 160) (vx / 160) (omega arith)
            (omega arith) (omega arith) (omega arith) p q)
  ]

module _ (ay ax view_dir : ℕ) (r : Range) (hay : ay < 6400) (hax : ax < 6400) (ry : r.y < 160)
    (rx : r.x < 160) where
  -- All the sectors that an attack from the map looks into are on the map.
  pub are_valid-collision_sectors : are_valid (collision_sectors (at_yx ay ax) view_dir r) ≡ true
  unfolding collision_sectors calc_sector div_ℤ
  are_valid-collision_sectors = elim (Bool-cases (view_dir == dir_ll)) [
    | inl l ↦
        rw
          (
            l,
            to_sector_less ax r.x hax rx,
            to_sector_more ay r.y hay ry,
            to_sector_less ay r.y hay ry,
          )
          (searched-valid (ay / 160) (ax / 160) _ _ _ (omega arith) (omega arith))
    | inr n ↦
        rw
          (
            n,
            to_sector_more ax r.x hax rx,
            to_sector_more ay r.y hay ry,
            to_sector_less ay r.y hay ry,
          )
          (searched-valid (ay / 160) (ax / 160) _ _ _ (omega arith) (omega arith))
  ]
