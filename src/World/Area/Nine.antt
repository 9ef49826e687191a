-- ===== src/World/Area/Nine.antt =====
-- `GetAroundValidClient` and `spArrDir`: the sectors around a sector, and who is found in them.
use mmotcpfighter.Base.{
  ℕ, zero, suc, ◌+◌, ◌<◌, ◌≤◌, ◌≡◌, refl, ap, ap₂, sym, ◌∙◌, Bool, true, false, ◌&&◌, ltb, leb,
  if◌then◌else◌, List, [], ◌∷◌, ◌++◌, append-nil, ℤ, pos, negsuc, ◌+ℤ◌, to_short, short_pattern,
  of_short_pattern, Bool-cases, inl, inr, arith,
}
use mmotcpfighter.Position.{SectorPos}
use mmotcpfighter.Direction.{DirVector, vector, sector_offsets}
use mmotcpfighter.Sector.{
  sector_pos, is_valid_sector, offset_sector, num_of_sector_vertical, num_of_sector_horizon,
}
use mmotcpfighter.Sector.Move.{sector_at}
use mmotcpfighter.World.Area.Around.{sectors_at, of_sectors, get_around_valid_client-found}
use mmotcpfighter.World.Area.Members.{AllHeld, wanted, written}
use mmotcpfighter.World.Area.{get_around_valid_client}
use mmotcpfighter.World.{Server, max_around}
use mmotcpfighter.LinkedList.{Ptr}
use mmotcpfighter.Base.{ok, length, subst}

-- The numbers below `n` that pass a test, from 0 on.
abbrev pub passing : (ℕ → Bool) → ℕ → List ℕ
passing f zero = []
passing f (suc n) = passing f n ++ (if f n then n ∷ [] else [])

-- At most one apart.
abbrev pub is_close : ℕ → ℕ → Bool
is_close a b = leb a (b + 1) && leb b (a + 1)

abbrev pub in_row : ℕ → List ℕ → List SectorPos
in_row y [] = []
in_row y (x ∷ xs) = sector_at y x ∷ in_row y xs

abbrev pub in_rows : List ℕ → List ℕ → List SectorPos
in_rows [] xs = []
in_rows (y ∷ ys) xs = in_row y xs ++ in_rows ys xs

-- The sectors of the map in a row and in a column at most one from those given, row by row.
abbrev pub sectors_around : ℕ → ℕ → List SectorPos
sectors_around y x =
    in_rows (passing (is_close y) num_of_sector_vertical)
      (passing (is_close x) num_of_sector_horizon)

-- One of the numbers, if it is below `n`.
abbrev one_below : ℕ → ℕ → List ℕ
one_below n a = if ltb a n then a ∷ [] else []

passing_first : (n : ℕ) → passing (is_close 0) n ≡ one_below n 0 ++ one_below n 1
passing_first zero = refl
passing_first (suc n) = rw (passing_first n) (ground arith)

passing_later :
    (y n : ℕ)
    → passing (is_close (suc y)) n ≡ one_below n y ++ (one_below n (y + 1) ++ one_below n (y + 2))
passing_later y zero = ground arith
passing_later y (suc n) = rw (passing_later y n) (ground arith)

-- The coordinates that the offsets lead to.
same_coordinate : (a : ℕ) → a < 40 → to_short (pos a +ℤ pos 0) ≡ pos a
unfolding to_short short_pattern of_short_pattern ◌+ℤ◌
same_coordinate a lt = ground arith

next_coordinate : (a : ℕ) → a < 40 → to_short (pos a +ℤ pos 1) ≡ pos (a + 1)
unfolding to_short short_pattern of_short_pattern ◌+ℤ◌
next_coordinate a lt = ground arith

previous_coordinate : (a : ℕ) → a < 40 → to_short (pos (suc a) +ℤ negsuc 0) ≡ pos a
unfolding to_short short_pattern of_short_pattern ◌+ℤ◌
previous_coordinate a lt = ground arith

before_first : to_short (pos 0 +ℤ negsuc 0) ≡ negsuc 0
unfolding to_short short_pattern of_short_pattern ◌+ℤ◌
before_first = refl

-- The rows or the columns at most one from a given one.
abbrev nearby : ℕ → List ℕ
nearby zero = one_below 40 0 ++ one_below 40 1
nearby (suc a) = one_below 40 a ++ (one_below 40 (a + 1) ++ one_below 40 (a + 2))

nearby-passing : (a : ℕ) → nearby a ≡ passing (is_close a) 40
nearby-passing zero = sym (passing_first 40)
nearby-passing (suc a) = sym (passing_later a 40)

-- Which sectors are on the map.
on_map : (r c : ℕ) → r < 40 → is_valid_sector (sector_at r c) ≡ ltb c 40
unfolding is_valid_sector
on_map r c h = ground arith

left_of_map : (r : ℕ) → is_valid_sector (sector_pos (pos r) (negsuc 0)) ≡ false
unfolding is_valid_sector
left_of_map r = ground arith

above_map : (z : ℤ) → is_valid_sector (sector_pos (negsuc 0) z) ≡ false
unfolding is_valid_sector
above_map z = ground arith

below_map : (z : ℤ) (r : ℕ) → 40 ≤ r → is_valid_sector (sector_pos (pos r) z) ≡ false
unfolding is_valid_sector
below_map z r h = ground arith

-- The offsets of one row.
abbrev row_of : ℤ → List DirVector
row_of d = vector d (negsuc 0) ∷ vector d (pos 0) ∷ vector d (pos 1) ∷ []

sectors_at-append :
    (sp : SectorPos) (vs ws : List DirVector)
    → sectors_at sp (vs ++ ws) ≡ sectors_at sp vs ++ sectors_at sp ws
sectors_at-append sp [] ws = refl
sectors_at-append sp (v ∷ vs) ws = elim (Bool-cases (is_valid_sector (offset_sector sp v))) [
  | inl e ↦ rw (e, sectors_at-append sp vs ws) refl
  | inr e ↦ rw (e, sectors_at-append sp vs ws) refl
]

row_on :
    (y x r : ℕ) (d : ℤ)
    → x < 40
    → r < 40
    → to_short (pos y +ℤ d) ≡ pos r
    → sectors_at (sector_at y x) (row_of d) ≡ in_row r (nearby x)
unfolding offset_sector
row_on y zero r d hx hr e =
    rw
      (
        e,
        before_first,
        same_coordinate 0 (omega arith),
        next_coordinate 0 (omega arith),
        left_of_map r,
        on_map r 0 hr,
        on_map r 1 hr,
      )
      refl
row_on y (suc x) r d hx hr e =
    let there : ltb x 40 ≡ true = ground arith in
    let here : ltb (suc x) 40 ≡ true = ground arith in
    rw
      (
        e,
        previous_coordinate x (omega arith),
        same_coordinate (suc x) hx,
        next_coordinate (suc x) hx,
        on_map r x hr,
        on_map r (suc x) hr,
        on_map r (suc x + 1) hr,
        there,
        here,
      )
      (ground arith)

row_off :
    (y x : ℕ) (d : ℤ)
    → ((z : ℤ) → is_valid_sector (sector_pos (to_short (pos y +ℤ d)) z) ≡ false)
    → sectors_at (sector_at y x) (row_of d) ≡ []
unfolding offset_sector
row_off y x d off =
    rw
      (
        off (to_short (pos x +ℤ negsuc 0)),
        off (to_short (pos x +ℤ pos 0)),
        off (to_short (pos x +ℤ pos 1)),
      )
      refl

-- The row below, which may be outside the map.
last_row :
    (y x : ℕ)
    → suc y < 40
    → x < 40
    → sectors_at (sector_at (suc y) x) (row_of (pos 1)) ≡ in_rows (one_below 40 (y + 2)) (nearby x)
last_row y x hy hx =
    let e : suc y + 1 ≡ y + 2 = omega arith in
    let leads : to_short (pos (suc y) +ℤ pos 1) ≡ pos (y + 2) =
      next_coordinate (suc y) hy ∙ ap pos e in
    elim (Bool-cases (ltb (y + 2) 40)) [
      | inl on ↦ rw on (
          row_on (suc y) x (y + 2) (pos 1) hx (ground arith) leads
          ∙ sym (append-nil (in_row (y + 2) (nearby x))))
      | inr off ↦
          rw off (row_off (suc y) x (pos 1) (λ z. rw leads (below_map z (y + 2) (ground arith))))
    ]

-- `spArrDir` leads to the sectors around a sector of the map, row by row.
pub sectors_at-sectors_around :
    (y x : ℕ) → y < 40 → x < 40 → sectors_at (sector_at y x) sector_offsets ≡ sectors_around y x
sectors_at-sectors_around y x hy hx =
    sectors_at-append (sector_at y x) (row_of (negsuc 0)) (row_of (pos 0) ++ row_of (pos 1))
    ∙ ap (λ sps. sectors_at (sector_at y x) (row_of (negsuc 0)) ++ sps)
        (sectors_at-append (sector_at y x) (row_of (pos 0)) (row_of (pos 1)))
    ∙ rows y hy
    ∙ ap₂ in_rows (nearby-passing y) (nearby-passing x)
  where
    rows :
        (y : ℕ)
        → y < 40
        → sectors_at (sector_at y x) (row_of (negsuc 0))
            ++ (sectors_at (sector_at y x) (row_of (pos 0))
                ++ sectors_at (sector_at y x) (row_of (pos 1)))
          ≡ in_rows (nearby y) (nearby x)
    rows zero hy =
        let top = row_off 0 x (negsuc 0) (λ z. rw before_first (above_map z)) in
        let mid = row_on 0 x 0 (pos 0) hx (omega arith) (same_coordinate 0 (omega arith)) in
        let low = row_on 0 x 1 (pos 1) hx (omega arith) (next_coordinate 0 (omega arith)) in
        ap₂ ◌++◌ top (ap₂ ◌++◌ mid (low ∙ sym (append-nil (in_row 1 (nearby x)))))
    rows (suc y) hy =
        let top =
          row_on (suc y) x y (negsuc 0) hx (omega arith) (previous_coordinate y (omega arith)) in
        let mid = row_on (suc y) x (suc y) (pos 0) hx hy (same_coordinate (suc y) hy) in
        let first_in : ltb y 40 ≡ true = ground arith in
        let second_in : ltb (y + 1) 40 ≡ true = ground arith in
        let e : suc y ≡ y + 1 = omega arith in
        ap₂ ◌++◌ top (ap₂ ◌++◌ mid (last_row y x hy hx)) ∙ rw (first_in, second_in, e) refl

-- `GetAroundValidClient` for a sector of the map, where the lists of the sectors are as they should be and the clients found are
-- not too many for the array: it returns without a fault, and what is in the array is exactly the clients of the sectors of the map
-- whose row and whose column are at most one from those of the given one, itself among them, row by row and within a
-- sector in the order of its list, less those whose session is invalid and the one to be left out. Nothing else changes.
pub get_around_valid_client-wanted :
    (members : SectorPos → List Ptr) (y x : ℕ) (except : Ptr) (s : Server)
    → y < 40
    → x < 40
    → AllHeld s members
    → length (wanted s except (of_sectors members (sectors_around y x))) ≤ max_around
    → get_around_valid_client (sector_at y x) except s
      ≡ ok (
        tt,
        record s {
          around = record {
            num = length (wanted s except (of_sectors members (sectors_around y x)));
            clients =
                written s.around.clients 0
                  (wanted s except (of_sectors members (sectors_around y x)));
          };
        },
      )
get_around_valid_client-wanted members y x except s hy hx held =
    subst
      (λ sps.
        length (wanted s except (of_sectors members sps)) ≤ max_around
        → get_around_valid_client (sector_at y x) except s
          ≡ ok (
            tt,
            record s {
              around = record {
                num = length (wanted s except (of_sectors members sps));
                clients = written s.around.clients 0 (wanted s except (of_sectors members sps));
              };
            },
          ))
      (sectors_at-sectors_around y x hy hx)
      (get_around_valid_client-found members (sector_at y x) except s held)
