-- ===== src/World/Area/Lists.antt =====
-- `AddClientAtSector` and `RemoveClientAtSector`: the lists of the clients in the sectors of the map.
use mmotcpfighter.Base.{
  ℕ, ◌+◌, ◌-◌, ◌%◌, ◌^◌, ◌<◌, ◌≡◌, ◌≢◌, refl, ap, ◌∙◌, true, false, ◌&&◌, List, [], ◌∷◌, ◌++◌, ◌==◌,
  ℤ, pos, negsuc, lt→ltb, if◌then◌else◌, length, length-append, ok, Bool-cases, inl, inr, arith,
}
use mmotcpfighter.Position.{SectorPos}
use mmotcpfighter.Sector.{
  num_of_sector_vertical, num_of_sector_horizon, is_valid_sector, grid_index, sector_pos,
}
use mmotcpfighter.LinkedList.{Ptr, null, Heap, Ends}
use mmotcpfighter.LinkedList.Chain.{has, has-append, Chain, IsList, SameOutside}
use mmotcpfighter.LinkedList.Link.{link_last_lem}
use mmotcpfighter.LinkedList.Unlink.{unlink_lem}
use mmotcpfighter.World.{Server}
use mmotcpfighter.World.Area.{
  load_sector, set_grid, store_sector, add_client_at_sector, remove_client_at_sector,
}
use mmotcpfighter.World.Area.Members.{IsKnown, Holds, AllHeld}

-- A row and a column of the map.
abbrev pub IsCell : ℕ → ℕ → Type 0
IsCell y x = (y < num_of_sector_vertical) × (x < num_of_sector_horizon)

-- The clients of each sector, by row and column, are linked from its head in that order, the sector counts them, and no client
-- is in two sectors.
pub record Populated (members : ℕ → ℕ → List Ptr) (s : Server) : Type 0 where
  pub list : (y x : ℕ) → IsCell y x → IsList s.links (s.grid y x).links (members y x)
  pub number : (y x : ℕ) → IsCell y x → (s.grid y x).num_of_client ≡ length (members y x)
  pub once :
      (y x y' x' : ℕ) (p : Ptr)
      → IsCell y x
      → IsCell y' x'
      → has p (members y x) ≡ true
      → has p (members y' x') ≡ true
      → (y' ≡ y) × (x' ≡ x)

-- The clients with those of one sector changed.
abbrev pub put : (ℕ → ℕ → List Ptr) → ℕ → ℕ → List Ptr → ℕ → ℕ → List Ptr
put members y x ps y' x' = if (y' == y) && (x' == x) then ps else members y' x'

Chain-same :
    (h g : Heap) (b : Ptr) (xs : List Ptr) (a : Ptr)
    → ((p : Ptr) → has p xs ≡ true → g p ≡ h p)
    → Chain h b xs a
    → Chain g b xs a
Chain-same h g b [] a same c = tt
Chain-same h g b (x ∷ xs) a same (there, here, new, rest) = (
  there,
  same x (ground arith) ∙ here,
  new,
  Chain-same h g x xs a (λ p e. same p (ground arith)) rest,
)

-- One sector gets another list, of nodes that are in no other sector's.
module _ (members : ℕ → ℕ → List Ptr) (s : Server) (y x : ℕ) (cell : IsCell y x)
    (ps touched : List Ptr) (h : Heap) (e : Ends) (n : ℕ) (held : Populated members s)
    (list : IsList h e ps) (number : n ≡ length ps) (same : SameOutside touched s.links h)
    (within : (p : Ptr) → has p ps ≡ true → has p touched ≡ true)
    (own : (p : Ptr) (y' x' : ℕ)
      → IsCell y' x'
      → has p touched ≡ true
      → has p (members y' x') ≡ true
      → (y' ≡ y) × (x' ≡ x)) where
  abbrev relinked : Server
  relinked = record s {
    links = h;
    grid = set_grid s.grid y x (record { links = e; num_of_client = n });
  }

  -- A client of another sector has not been touched.
  apart :
      (y' x' : ℕ) (p : Ptr)
      → IsCell y' x'
      → ((y' == y) && (x' == x)) ≡ false
      → has p (members y' x') ≡ true
      → has p touched ≡ false
  apart y' x' p there other mem = elim (Bool-cases (has p touched)) [
    | inl inside ↦ let (ey, ex) = own p y' x' there inside mem in ground arith
    | inr out ↦ out
  ]

  relinked-Populated : Populated (put members y x ps) relinked
  unfolding set_grid
  relinked-Populated = record {
    list = λ y' x' there. elim (Bool-cases ((y' == y) && (x' == x))) [
      | inl here ↦ rw here list
      | inr other ↦
          let old = held.list y' x' there in
          rw other (record {
            head_first = old.head_first;
            tail_last = old.tail_last;
            chain =
                Chain-same s.links h null (members y' x') null
                  (λ p mem. same p (apart y' x' p there other mem)) old.chain;
          })
    ];
    number = λ y' x' there. elim (Bool-cases ((y' == y) && (x' == x))) [
      | inl here ↦ rw here number
      | inr other ↦ rw other (held.number y' x' there)
    ];
    once = λ y₁ x₁ y₂ x₂ p first_there second_there mem mem'.
        elim (Bool-cases ((y₁ == y) && (x₁ == x))) [
          | inl here ↦ elim (Bool-cases ((y₂ == y) && (x₂ == x))) [
            | inl here' ↦ ground arith
            | inr other' ↦
                let in_new = rw here at mem in
                let in_old = rw other' at mem' in
                let (ey, ex) = own p y₂ x₂ second_there (within p in_new) in_old in ground arith
          ]
          | inr other ↦ elim (Bool-cases ((y₂ == y) && (x₂ == x))) [
            | inl here' ↦
                let in_old = rw other at mem in
                let in_new = rw here' at mem' in
                let (ey, ex) = own p y₁ x₁ first_there (within p in_new) in_old in ground arith
            | inr other' ↦
                let in_old = rw other at mem in
                let in_old' = rw other' at mem' in
                held.once y₁ x₁ y₂ x₂ p first_there second_there in_old in_old'
          ]
        ];
  }

-- `AddClientAtSector` of a client that is in no sector, in a sector of the map: it returns without a fault, the client is then the last of
-- that sector, and the lists are as they should be.
pub add_client_at_sector-Populated :
    (members : ℕ → ℕ → List Ptr) (client : Ptr) (sp : SectorPos) (y x : ℕ) (s : Server)
    → Populated members s
    → IsCell y x
    → grid_index sp ≡ ok (y, x)
    → client ≢ null
    → ((y' x' : ℕ) → IsCell y' x' → has client (members y' x') ≡ false)
    → length (members y x) + 1 < 2 ^ 32
    → (t : Server) × (add_client_at_sector client sp s ≡ ok (tt, t))
      × Populated (put members y x (members y x ++ (client ∷ []))) t
unfolding add_client_at_sector load_sector store_sector
add_client_at_sector-Populated members client sp y x s held cell index there new room =
    let ps : List Ptr = members y x in
    let (h, e, done, list, same) =
      link_last_lem s.links (s.grid y x).links client ps (held.list y x cell) there
        (new y x cell) in
    let counted : ((s.grid y x).num_of_client + 1) % 2 ^ 32 ≡ length (ps ++ (client ∷ [])) =
      omega (arith, held.number y x cell, length-append ps (client ∷ [])) in
    (
      _,
      rw (index, done) refl,
      relinked-Populated members s y x cell (ps ++ (client ∷ [])) (client ∷ ps) h e _ held list
          counted same (λ p mem. ground (arith, has-append p ps (client ∷ [])))
          (λ p y' x' cell' inside mem. elim (Bool-cases (p == client)) [
            | inl self ↦
                let none = new y' x' cell' in let e' : p ≡ client = ground arith in absurd (cc)
            | inr other ↦ held.once y x y' x' p cell cell' (ground arith) mem
          ]),
    )

-- `RemoveClientAtSector` of a client of a sector of the map: it returns without a fault, the others of that sector are left
-- in their order, and the lists are as they should be.
pub remove_client_at_sector-Populated :
    (members : ℕ → ℕ → List Ptr) (client : Ptr) (ps qs : List Ptr) (sp : SectorPos) (y x : ℕ)
    (s : Server)
    → Populated members s
    → IsCell y x
    → grid_index sp ≡ ok (y, x)
    → members y x ≡ ps ++ (client ∷ qs)
    → length (members y x) < 2 ^ 32
    → (t : Server) × (remove_client_at_sector client sp s ≡ ok (tt, t))
      × Populated (put members y x (ps ++ qs)) t
unfolding remove_client_at_sector load_sector store_sector
remove_client_at_sector-Populated members client ps qs sp y x s held cell index stands room =
    let here = held.list y x cell in
    let (h, e, done, list, cleared, same) =
      unlink_lem s.links (s.grid y x).links client ps qs (rw stands at here) in
    let counted : ((s.grid y x).num_of_client + 2 ^ 32 - 1) % 2 ^ 32 ≡ length (ps ++ qs) = omega (
      arith,
      held.number y x cell,
      ap length stands,
      length-append ps qs,
      length-append ps (client ∷ qs),
    ) in
    (
      _,
      rw (index, done) refl,
      relinked-Populated members s y x cell (ps ++ qs) (ps ++ (client ∷ qs)) h e _ held list counted
          same (λ p mem. ground (arith, has-append p ps qs, has-append p ps (client ∷ qs)))
          (λ p y' x' cell' inside mem.
            held.once y x y' x' p cell cell' (ap (has p) stands ∙ inside) mem),
    )

-- The clients of a sector, by its position.
abbrev at_cell : (ℕ → ℕ → List Ptr) → ℤ → ℤ → List Ptr
at_cell members (pos y) (pos x) = members y x
at_cell members (pos y) (negsuc x) = []
at_cell members (negsuc y) x = []

abbrev pub cells : (ℕ → ℕ → List Ptr) → SectorPos → List Ptr
cells members sp = at_cell members sp.y sp.x

-- Where the lists are as they should be and the sessions of the clients can be looked up, what `GetAroundValidClient` and
-- `GetDeltaValidClient` ask of the sectors holds.
pub Populated-AllHeld :
    (members : ℕ → ℕ → List Ptr) (s : Server)
    → Populated members s
    → ((y x : ℕ) (p : Ptr) → IsCell y x → has p (members y x) ≡ true → IsKnown s p)
    → AllHeld s (cells members)
unfolding is_valid_sector grid_index
Populated-AllHeld members s held known sp on_map = at_position sp.y sp.x on_map
  where
    at_position :
        (y x : ℤ)
        → is_valid_sector (sector_pos y x) ≡ true
        → Holds s (sector_pos y x) (at_cell members y x)
    at_position (pos y) (pos x) on =
        let cell : IsCell y x = ground arith in
        (
          y,
          x,
          rw (lt→ltb _ _ cell.0, lt→ltb _ _ cell.1) refl,
          held.list y x cell,
          held.number y x cell,
          λ p mem. known y x p cell mem,
        )
    at_position (pos y) (negsuc x) on = absurd (ground arith)
    at_position (negsuc y) x on = absurd (ground arith)
