-- ===== src/Sector/Move.antt =====
-- `GetSectorMoveDir`: the direction of a step from a sector to one beside it.
use mmotcpfighter.Base.{
  ℕ, suc, ◌+◌, ◌-◌, ◌≤◌, ◌<◌, ◌≡◌, refl, ◌∙◌, ◌⊎◌, inl, inr, ℤ, pos, negsuc, ◌+ℤ◌, ◌-ℤ◌, to_short,
  short_pattern, of_short_pattern, arith, length, zero, suc, List, [], ◌∷◌, if◌then◌else◌, ◌==◌,
  ◌>>=◌, Outcome, ok, err, out_of_bounds, debug_break,
}
use mmotcpfighter.Position.{SectorPos}
use mmotcpfighter.Direction.{DirVector, vector, at, vectors, sector_move_dirs}
use mmotcpfighter.Sector.{sector_pos, get_sector_move_dir, offset_sector, at_ℤ}

abbrev pub sector_at : ℕ → ℕ → SectorPos
sector_at y x = sector_pos (pos y) (pos x)

-- The row or column of the table for two coordinates, which is behind the end where they are more than
-- one apart.
abbrev index : ℕ → ℕ → ℤ
index a b = to_short (pos b -ℤ pos a) +ℤ pos 1

data Step (a b : ℕ) : Type 0 where
  back : a ≡ b + 1 → index a b ≡ pos 0 → Step a b
  stay : b ≡ a → index a b ≡ pos 1 → Step a b
  forth : b ≡ a + 1 → index a b ≡ pos 2 → Step a b
  far_forth : a + 1 < b → index a b ≡ pos (b - a + 1) → Step a b
  far_back : b + 1 < a → index a b ≡ negsuc (a - b - 2) → Step a b

-- The five cases, on the index alone.
abbrev IndexOf : ℕ → ℕ → ℤ → Type 0
IndexOf a b k =
    ((b ≡ a) × (k ≡ pos 1))
    ⊎ (((b ≡ a + 1) × (k ≡ pos 2))
        ⊎ (((a ≡ b + 1) × (k ≡ pos 0))
            ⊎ (((a + 1 < b) × (k ≡ pos (b - a + 1))) ⊎ ((b + 1 < a) × (k ≡ negsuc (a - b - 2))))))

IndexOf-step :
    (a b : ℕ) (k : ℤ) → a < 40 → b < 40 → k ≡ to_short (pos b -ℤ pos a) +ℤ pos 1 → IndexOf a b k
unfolding to_short short_pattern of_short_pattern ◌+ℤ◌ ◌-ℤ◌
IndexOf-step a b k ha hb e = ground arith

steps : (a b : ℕ) → a < 40 → b < 40 → Step a b
steps a b ha hb = elim (IndexOf-step a b (index a b) ha hb refl) [
  | inl (e, k) ↦ stay e k
  | inr (inl (e, k)) ↦ forth e k
  | inr (inr (inl (e, k))) ↦ back e k
  | inr (inr (inr (inl (e, k)))) ↦ far_forth e k
  | inr (inr (inr (inr (e, k)))) ↦ far_back e k
]

abbrev Lands : ℕ → ℕ → ℤ → Type 0
Lands a b d = to_short (pos a +ℤ d) ≡ pos b

Lands-back : (a b : ℕ) → a < 40 → a ≡ b + 1 → Lands a b (negsuc 0)
unfolding to_short short_pattern of_short_pattern ◌+ℤ◌
Lands-back a b lt e = ground arith

Lands-stay : (a b : ℕ) → a < 40 → b ≡ a → Lands a b (pos 0)
unfolding to_short short_pattern of_short_pattern ◌+ℤ◌
Lands-stay a b lt e = ground arith

Lands-forth : (a b : ℕ) → a < 40 → b ≡ a + 1 → Lands a b (pos 1)
unfolding to_short short_pattern of_short_pattern ◌+ℤ◌
Lands-forth a b lt e = ground arith

-- What the table says at two indices.
abbrev looked_up : ℤ → ℤ → Outcome ℕ
looked_up row column = do
  dirs ← at_ℤ sector_move_dirs row
  dir ← at_ℤ dirs column
  if dir == 8 then err debug_break else ok dir

looks_up :
    (y x y' x' : ℕ)
    → get_sector_move_dir (sector_at y x) (sector_at y' x') ≡ looked_up (index y y') (index x x')
unfolding get_sector_move_dir
looks_up y x y' x' = refl

-- A direction whose vector leads from one sector to the other.
abbrev pub Leads : SectorPos → SectorPos → ℕ → Type 0
Leads old_sector new_sector dir =
    (v : DirVector) × (at vectors dir ≡ ok v) × (offset_sector old_sector v ≡ new_sector)

leads :
    (y x y' x' dir : ℕ) (dy dx : ℤ)
    → at vectors dir ≡ ok (vector dy dx)
    → Lands y y' dy
    → Lands x x' dx
    → Leads (sector_at y x) (sector_at y' x') dir
unfolding offset_sector
leads y x y' x' dir dy dx e p q = (vector dy dx, e, λ i. sector_pos (p i) (q i))

-- Two numbers at most one apart.
abbrev pub IsNear : ℕ → ℕ → Type 0
IsNear a b = (a ≤ b + 1) × (b ≤ a + 1)

abbrev Found : ℕ → ℕ → ℕ → ℕ → Type 0
Found y x y' x' =
    (dir : ℕ) × (looked_up (index y y') (index x x') ≡ ok dir)
    × Leads (sector_at y x) (sector_at y' x') dir

-- The entry at two known indices.
module _ (y x y' x' : ℕ) where
  found :
      {row column : ℤ} (dir : ℕ)
      → index y y' ≡ row
      → index x x' ≡ column
      → looked_up row column ≡ ok dir
      → Leads (sector_at y x) (sector_at y' x') dir
      → Found y x y' x'
  found dir p q e l = (dir, rw (p, q) e, l)

  -- The eight entries beside the middle of the table.
  Found-near :
      y < 40
      → x < 40
      → IsNear y y'
      → IsNear x x'
      → ¬ ((y' ≡ y) × (x' ≡ x))
      → Step y y'
      → Step x x'
      → Found y x y' x'
  Found-near hy hx ny nx other (back p i) (back q j) =
      found 1 i j refl (leads y x y' x' 1 _ _ refl (Lands-back y y' hy p) (Lands-back x x' hx q))
  Found-near hy hx ny nx other (back p i) (stay q j) =
      found 2 i j refl (leads y x y' x' 2 _ _ refl (Lands-back y y' hy p) (Lands-stay x x' hx q))
  Found-near hy hx ny nx other (back p i) (forth q j) =
      found 3 i j refl (leads y x y' x' 3 _ _ refl (Lands-back y y' hy p) (Lands-forth x x' hx q))
  Found-near hy hx ny nx other (stay p i) (back q j) =
      found 0 i j refl (leads y x y' x' 0 _ _ refl (Lands-stay y y' hy p) (Lands-back x x' hx q))
  Found-near hy hx ny nx other (stay p i) (stay q j) = absurd (other (p, q))
  Found-near hy hx ny nx other (stay p i) (forth q j) =
      found 4 i j refl (leads y x y' x' 4 _ _ refl (Lands-stay y y' hy p) (Lands-forth x x' hx q))
  Found-near hy hx ny nx other (forth p i) (back q j) =
      found 7 i j refl (leads y x y' x' 7 _ _ refl (Lands-forth y y' hy p) (Lands-back x x' hx q))
  Found-near hy hx ny nx other (forth p i) (stay q j) =
      found 6 i j refl (leads y x y' x' 6 _ _ refl (Lands-forth y y' hy p) (Lands-stay x x' hx q))
  Found-near hy hx ny nx other (forth p i) (forth q j) =
      found 5 i j refl (leads y x y' x' 5 _ _ refl (Lands-forth y y' hy p) (Lands-forth x x' hx q))
  Found-near hy hx ny nx other (far_forth p i) _ = absurd (omega arith)
  Found-near hy hx ny nx other (far_back p i) _ = absurd (omega arith)
  Found-near hy hx ny nx other (back p i) (far_forth q j) = absurd (omega arith)
  Found-near hy hx ny nx other (back p i) (far_back q j) = absurd (omega arith)
  Found-near hy hx ny nx other (stay p i) (far_forth q j) = absurd (omega arith)
  Found-near hy hx ny nx other (stay p i) (far_back q j) = absurd (omega arith)
  Found-near hy hx ny nx other (forth p i) (far_forth q j) = absurd (omega arith)
  Found-near hy hx ny nx other (forth p i) (far_back q j) = absurd (omega arith)

  -- Between two different sectors of the map whose rows and columns are at most one apart,
  -- `GetSectorMoveDir` returns a direction whose vector leads from the old to the new.
  pub get_sector_move_dir_near :
      y < 40
      → x < 40
      → y' < 40
      → x' < 40
      → IsNear y y'
      → IsNear x x'
      → ¬ ((y' ≡ y) × (x' ≡ x))
      → (dir : ℕ) × (get_sector_move_dir (sector_at y x) (sector_at y' x') ≡ ok dir)
        × Leads (sector_at y x) (sector_at y' x') dir
  get_sector_move_dir_near hy hx hy' hx' ny nx other =
      let (dir, e, l) = Found-near hy hx ny nx other (steps y y' hy hy') (steps x x' hx hx') in
      (dir, looks_up y x y' x' ∙ e, l)

at_past {ℓ} : {A : Type ℓ} (xs : List A) (n : ℕ) → length xs ≤ n → at xs n ≡ err out_of_bounds
at_past [] n h = refl
at_past (x ∷ xs) zero h = absurd (omega arith)
at_past (x ∷ xs) (suc n) h = at_past xs n (omega arith)

-- Three rows, and three columns in each.
far_row :
    (a b : ℕ) (column : ℤ)
    → Step a b
    → ¬ IsNear a b
    → looked_up (index a b) column ≡ err out_of_bounds
far_row a b column (back p i) far = absurd (far (omega arith, omega arith))
far_row a b column (stay p i) far = absurd (far (omega arith, omega arith))
far_row a b column (forth p i) far = absurd (far (omega arith, omega arith))
far_row a b column (far_forth p i) far =
    rw (i, at_past sector_move_dirs (b - a + 1) (omega arith)) refl
far_row a b column (far_back p i) far = rw i refl

far_column :
    (dirs : List ℕ) (a b : ℕ)
    → length dirs ≡ 3
    → Step a b
    → ¬ IsNear a b
    → at_ℤ dirs (index a b) ≡ err out_of_bounds
far_column dirs a b e (back p i) far = absurd (far (omega arith, omega arith))
far_column dirs a b e (stay p i) far = absurd (far (omega arith, omega arith))
far_column dirs a b e (forth p i) far = absurd (far (omega arith, omega arith))
far_column dirs a b e (far_forth p i) far = rw i (at_past dirs (b - a + 1) (omega arith))
far_column dirs a b e (far_back p i) far = rw i refl

-- Whatever the row, a column behind the end is a fault.
far_columns :
    (a b c d : ℕ)
    → Step a b
    → Step c d
    → ¬ IsNear c d
    → looked_up (index a b) (index c d) ≡ err out_of_bounds
far_columns a b c d (back p i) t far = rw (i, far_column _ c d refl t far) refl
far_columns a b c d (stay p i) t far = rw (i, far_column _ c d refl t far) refl
far_columns a b c d (forth p i) t far = rw (i, far_column _ c d refl t far) refl
far_columns a b c d (far_forth p i) t far = far_row a b _ (far_forth p i) (λ h. omega arith)
far_columns a b c d (far_back p i) t far = far_row a b _ (far_back p i) (λ h. omega arith)

index_self : (a : ℕ) → index a a ≡ pos 1
unfolding to_short short_pattern of_short_pattern ◌+ℤ◌ ◌-ℤ◌
index_self a = ground arith

far_either :
    (a b c d : ℕ)
    → Step a b
    → Step c d
    → ¬ (IsNear a b × IsNear c d)
    → looked_up (index a b) (index c d) ≡ err out_of_bounds
far_either a b c d (back p i) t far =
    far_columns a b c d (back p i) t (λ h. far ((omega arith, omega arith), h))
far_either a b c d (stay p i) t far =
    far_columns a b c d (stay p i) t (λ h. far ((omega arith, omega arith), h))
far_either a b c d (forth p i) t far =
    far_columns a b c d (forth p i) t (λ h. far ((omega arith, omega arith), h))
far_either a b c d (far_forth p i) t far = far_row a b _ (far_forth p i) (λ h. omega arith)
far_either a b c d (far_back p i) t far = far_row a b _ (far_back p i) (λ h. omega arith)

-- On the same sector `GetSectorMoveDir` breaks into the debugger, and on two sectors of the map that
-- are more than one row or column apart it reads outside its table.
pub get_sector_move_dir_fails :
    (y x y' x' : ℕ)
    → y < 40
    → x < 40
    → y' < 40
    → x' < 40
    → (get_sector_move_dir (sector_at y x) (sector_at y x) ≡ err debug_break)
      × (¬ (IsNear y y' × IsNear x x')
          → get_sector_move_dir (sector_at y x) (sector_at y' x') ≡ err out_of_bounds)
get_sector_move_dir_fails y x y' x' hy hx hy' hx' = (
  looks_up y x y x ∙ rw (index_self y, index_self x) refl,
  λ far. looks_up y x y' x' ∙ far_either y y' x x' (steps y y' hy hy') (steps x x' hx hx') far,
)
