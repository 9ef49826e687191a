-- ===== src/Sector/Members.antt =====
-- Sectors in lists: whether one is among them, and whether they are all on the map.
use mmotcpfighter.Base.{◌≡◌, refl, Bool, true, false, ◌&&◌, ◌||◌, List, [], ◌∷◌, ◌++◌}
use mmotcpfighter.Position.{SectorPos, same_yx}
use mmotcpfighter.Sector.{is_valid_sector}

or_true : (b : Bool) → (b || true) ≡ true
or_true true = refl
or_true false = refl

or_mono : (a b c : Bool) → (b ≡ true → c ≡ true) → (a || b) ≡ true → (a || c) ≡ true
or_mono true b c f h = refl
or_mono false b c f h = f h

unfoldable pub is_among : SectorPos → List SectorPos → Bool
is_among sp [] = false
is_among sp (x ∷ xs) = same_yx sp x || is_among sp xs

unfoldable pub are_valid : List SectorPos → Bool
are_valid [] = true
are_valid (x ∷ xs) = is_valid_sector x && are_valid xs

pub among_later :
    (sp x : SectorPos) (xs : List SectorPos) → is_among sp xs ≡ true → is_among sp (x ∷ xs) ≡ true
unfolding is_among
among_later sp x xs h = rw h (or_true (same_yx sp x))

pub among_left :
    (sp : SectorPos) (xs ys : List SectorPos)
    → is_among sp xs ≡ true
    → is_among sp (xs ++ ys) ≡ true
unfolding is_among
among_left sp [] ys h = absurd (cc)
among_left sp (x ∷ xs) ys h = or_mono (same_yx sp x) _ _ (among_left sp xs ys) h

pub among_right :
    (sp : SectorPos) (xs ys : List SectorPos)
    → is_among sp ys ≡ true
    → is_among sp (xs ++ ys) ≡ true
among_right sp [] ys h = h
among_right sp (x ∷ xs) ys h = among_later sp x (xs ++ ys) (among_right sp xs ys h)
