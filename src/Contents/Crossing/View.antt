-- ===== src/Contents/Crossing/View.antt =====
-- The tables `removeDirArr` and `AddDirArr`: where a client goes over to the next sector, the sectors
-- that go out of its view and those that come into it.
use mmotcpfighter.Base.{
  ℕ, zero, suc, ◌+◌, ◌<◌, ◌≡◌, refl, ap, sym, ◌∙◌, true, not, ◌&&◌, List, ◌∷◌, pos, negsuc, eq_ℤ,
  arith, ok,
}
use mmotcpfighter.Position.{SectorPos}
use mmotcpfighter.Direction.{DirVector, vector, at, vectors, remove_dirs, add_dirs}
use mmotcpfighter.Sector.{offset_sector, get_delta_sector}
use mmotcpfighter.Sector.Move.{sector_at, Leads}
use mmotcpfighter.Sector.Members.{is_among}
use mmotcpfighter.Contents.Crossing.{delta_sector_num}
use mmotcpfighter.Contents.Crossing.Steps.{
  is_step, is_unit, step_lem, guarded, is_hit, are_units, and_split, is_among-guarded, is_around,
  turn, corner_lu, corner_ru, corner_rd, corner_ld, eq_self,
}

-- What it means that a direction leads from one sector to another, row by row and column by column.
module _ (y x y' x' : ℕ) (hy : y < 40) (hx : x < 40) where
  Leads-steps :
      (dir : ℕ) (v : DirVector)
      → at vectors dir ≡ ok v
      → is_unit v.y ≡ true
      → is_unit v.x ≡ true
      → Leads (sector_at y x) (sector_at y' x') dir
      → (is_step y' y v.y ≡ true) × (is_step x' x v.x ≡ true)
  unfolding offset_sector
  Leads-steps dir v e uy ux (w, f, o) =
      let same : w ≡ v = cc in
      let o' : offset_sector (sector_at y x) v ≡ sector_at y' x' = rw (sym same) o in
      (
        sym (step_lem y' y v.y hy uy) ∙ ap (λ q. eq_ℤ (pos y') q.y) o' ∙ eq_self y',
        sym (step_lem x' x v.x hx ux) ∙ ap (λ q. eq_ℤ (pos x') q.x) o' ∙ eq_self x',
      )

  module _ (sy sx : ℕ) (hsy : sy < 40) (hsx : sx < 40) where
    -- The sectors that `get_delta_sector` gives, by a table of where they begin, are those around the one
    -- and not around the other.
    abbrev pub Changed : List ℕ → ℕ → ℕ → ℕ → ℕ → ℕ → Type 0
    Changed table dir by bx oy ox =
        (first : ℕ) × (l : List SectorPos) × (at table dir ≡ ok first)
        × (get_delta_sector (delta_sector_num dir) (sector_at by bx) first ≡ ok l)
        × (is_among (sector_at sy sx) l ≡ (is_around sy sx by bx && not (is_around sy sx oy ox)))

    removed_by :
        (dir first : ℕ) (v : DirVector) (vs : List DirVector)
        → at vectors dir ≡ ok v
        → are_units (v ∷ vs) ≡ true
        → at remove_dirs dir ≡ ok first
        → get_delta_sector (delta_sector_num dir) (sector_at y x) first
          ≡ ok (guarded vs (sector_at y x))
        → (is_step y' y v.y ≡ true
            → is_step x' x v.x ≡ true
            → is_hit sy sx y x vs ≡ (is_around sy sx y x && not (is_around sy sx y' x')))
        → Leads (sector_at y x) (sector_at y' x') dir
        → Changed remove_dirs dir y x y' x'
    removed_by dir first v vs e u f g h l =
        let (uy, ux, us) = and_split _ _ _ u in
        let (p, q) = Leads-steps dir v e uy ux l in
        (
          first,
          guarded vs (sector_at y x),
          f,
          g,
          is_among-guarded sy sx y x hsy hsx hy hx vs us ∙ h p q,
        )

    -- Where a client goes over from a sector of the map to the next, the sectors of the map that
    -- `removeDirArr` leads to around the old sector are those around the old and not around the new.
    pub remove_dirs_lem :
        (dir : ℕ) → Leads (sector_at y x) (sector_at y' x') dir → Changed remove_dirs dir y x y' x'
    unfolding get_delta_sector guarded delta_sector_num
    remove_dirs_lem zero =
        removed_by 0 3 (vector (pos 0) (negsuc 0)) (turn 3 3) refl refl refl refl
          (λ p q. ground arith)
    remove_dirs_lem (suc zero) =
        removed_by 1 3 (vector (negsuc 0) (negsuc 0)) (turn 5 3) refl refl refl refl
          (λ p q. ground arith)
    remove_dirs_lem (suc (suc zero)) =
        removed_by 2 5 (vector (negsuc 0) (pos 0)) (turn 3 5) refl refl refl refl
          (λ p q. ground arith)
    remove_dirs_lem (suc (suc (suc zero))) =
        removed_by 3 5 (vector (negsuc 0) (pos 1)) (turn 5 5) refl refl refl refl
          (λ p q. ground arith)
    remove_dirs_lem (suc (suc (suc (suc zero)))) =
        removed_by 4 7 (vector (pos 0) (pos 1)) (turn 3 7) refl refl refl refl (λ p q. ground arith)
    remove_dirs_lem (suc (suc (suc (suc (suc zero))))) =
        removed_by 5 7 (vector (pos 1) (pos 1)) (turn 5 7) refl refl refl refl (λ p q. ground arith)
    remove_dirs_lem (suc (suc (suc (suc (suc (suc zero)))))) =
        removed_by 6 1 (vector (pos 1) (pos 0)) (turn 3 1) refl refl refl refl (λ p q. ground arith)
    remove_dirs_lem (suc (suc (suc (suc (suc (suc (suc zero))))))) =
        removed_by 7 1 (vector (pos 1) (negsuc 0)) (turn 5 1) refl refl refl refl
          (λ p q. ground arith)
    remove_dirs_lem (suc (suc (suc (suc (suc (suc (suc (suc dir)))))))) = λ (w, f, o). absurd (cc)

    module _ (hy' : y' < 40) (hx' : x' < 40) where
      added_by :
          (dir first : ℕ) (v : DirVector) (vs : List DirVector)
          → at vectors dir ≡ ok v
          → are_units (v ∷ vs) ≡ true
          → at add_dirs dir ≡ ok first
          → get_delta_sector (delta_sector_num dir) (sector_at y' x') first
            ≡ ok (guarded vs (sector_at y' x'))
          → (is_step y' y v.y ≡ true
              → is_step x' x v.x ≡ true
              → is_hit sy sx y' x' vs ≡ (is_around sy sx y' x' && not (is_around sy sx y x)))
          → Leads (sector_at y x) (sector_at y' x') dir
          → Changed add_dirs dir y' x' y x
      added_by dir first v vs e u f g h l =
          let (uy, ux, us) = and_split _ _ _ u in
          let (p, q) = Leads-steps dir v e uy ux l in
          (
            first,
            guarded vs (sector_at y' x'),
            f,
            g,
            is_among-guarded sy sx y' x' hsy hsx hy' hx' vs us ∙ h p q,
          )

      -- The sectors of the map that `AddDirArr` leads to around the new sector are those around the new
      -- and not around the old.
      pub add_dirs_lem :
          (dir : ℕ) → Leads (sector_at y x) (sector_at y' x') dir → Changed add_dirs dir y' x' y x
      unfolding get_delta_sector guarded delta_sector_num
      add_dirs_lem zero =
          added_by 0 7 (vector (pos 0) (negsuc 0)) (turn 3 7) refl refl refl refl
            (λ p q. ground arith)
      add_dirs_lem (suc zero) =
          added_by 1 7 (vector (negsuc 0) (negsuc 0)) (turn 5 7) refl refl refl refl (λ p q.
            let ey : y ≡ y' + 1 = ground arith in
            let ex : x ≡ x' + 1 = ground arith in rw (ey, ex) (corner_lu sy sx y' x'))
      add_dirs_lem (suc (suc zero)) =
          added_by 2 1 (vector (negsuc 0) (pos 0)) (turn 3 1) refl refl refl refl
            (λ p q. ground arith)
      add_dirs_lem (suc (suc (suc zero))) =
          added_by 3 1 (vector (negsuc 0) (pos 1)) (turn 5 1) refl refl refl refl (λ p q.
            let ey : y ≡ y' + 1 = ground arith in
            let ex : x' ≡ x + 1 = ground arith in rw (ey, ex) (corner_ru sy sx y' x))
      add_dirs_lem (suc (suc (suc (suc zero)))) =
          added_by 4 3 (vector (pos 0) (pos 1)) (turn 3 3) refl refl refl refl (λ p q. ground arith)
      add_dirs_lem (suc (suc (suc (suc (suc zero))))) =
          added_by 5 3 (vector (pos 1) (pos 1)) (turn 5 3) refl refl refl refl (λ p q.
            let ey : y' ≡ y + 1 = ground arith in
            let ex : x' ≡ x + 1 = ground arith in rw (ey, ex) (corner_rd sy sx y x))
      add_dirs_lem (suc (suc (suc (suc (suc (suc zero)))))) =
          added_by 6 5 (vector (pos 1) (pos 0)) (turn 3 5) refl refl refl refl (λ p q. ground arith)
      add_dirs_lem (suc (suc (suc (suc (suc (suc (suc zero))))))) =
          added_by 7 5 (vector (pos 1) (negsuc 0)) (turn 5 5) refl refl refl refl (λ p q.
            let ey : y' ≡ y + 1 = ground arith in
            let ex : x ≡ x' + 1 = ground arith in rw (ey, ex) (corner_ld sy sx y x'))
      add_dirs_lem (suc (suc (suc (suc (suc (suc (suc (suc dir)))))))) = λ (w, f, o). absurd (cc)
