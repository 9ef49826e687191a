-- ===== src/Direction.antt =====
-- Direction.h: the eight directions, clockwise from the left, and the tables that go by them. An
-- index behind the end of a table is the fault `out_of_bounds`.
use mmotcpfighter.Base.{
  ℕ, zero, suc, List, [], ◌∷◌, ℤ, pos, negsuc, Outcome, ok, err, out_of_bounds,
}

abbrev pub dir_ll : ℕ
dir_ll = 0

abbrev pub dir_lu : ℕ
dir_lu = 1

abbrev pub dir_uu : ℕ
dir_uu = 2

abbrev pub dir_ru : ℕ
dir_ru = 3

abbrev pub dir_rr : ℕ
dir_rr = 4

abbrev pub dir_rd : ℕ
dir_rd = 5

abbrev pub dir_dd : ℕ
dir_dd = 6

abbrev pub dir_ld : ℕ
dir_ld = 7

abbrev pub dir_nomove : ℕ
dir_nomove = 8

pub record DirVector : Type 0 where
  pub y : ℤ
  pub x : ℤ

abbrev pub vector : ℤ → ℤ → DirVector
vector y x = record { y = y; x = x }

abbrev minus_one : ℤ
minus_one = negsuc 0

abbrev pub at {ℓ} : {A : Type ℓ} → List A → ℕ → Outcome A
at [] i = err out_of_bounds
at (x ∷ _) zero = ok x
at (_ ∷ xs) (suc i) = at xs i

-- `spArrDir`: a sector and its eight neighbours, row by row.
abbrev pub sector_offsets : List DirVector
sector_offsets =
    vector minus_one minus_one
    ∷ vector minus_one (pos 0)
    ∷ vector minus_one (pos 1)
    ∷ vector (pos 0) minus_one
    ∷ vector (pos 0) (pos 0)
    ∷ vector (pos 0) (pos 1)
    ∷ vector (pos 1) minus_one
    ∷ vector (pos 1) (pos 0)
    ∷ vector (pos 1) (pos 1)
    ∷ []

-- `vArr`
abbrev pub vectors : List DirVector
vectors =
    vector (pos 0) minus_one
    ∷ vector minus_one minus_one
    ∷ vector minus_one (pos 0)
    ∷ vector minus_one (pos 1)
    ∷ vector (pos 0) (pos 1)
    ∷ vector (pos 1) (pos 1)
    ∷ vector (pos 1) (pos 0)
    ∷ vector (pos 1) minus_one
    ∷ []

-- `removeDirArr` and `AddDirArr`: where the sectors that a move leaves behind, or brings into view,
-- begin around the old sector and the new.
abbrev pub remove_dirs : List ℕ
remove_dirs = dir_ru ∷ dir_ru ∷ dir_rd ∷ dir_rd ∷ dir_ld ∷ dir_ld ∷ dir_lu ∷ dir_lu ∷ []

abbrev pub add_dirs : List ℕ
add_dirs = dir_ld ∷ dir_ld ∷ dir_lu ∷ dir_lu ∷ dir_ru ∷ dir_ru ∷ dir_rd ∷ dir_rd ∷ []

-- `SectorMoveDir[row][column]`
abbrev pub sector_move_dirs : List (List ℕ)
sector_move_dirs =
    (dir_lu ∷ dir_uu ∷ dir_ru ∷ [])
    ∷ (dir_ll ∷ dir_nomove ∷ dir_rr ∷ [])
    ∷ (dir_ld ∷ dir_dd ∷ dir_rd ∷ [])
    ∷ []
