-- ===== src/World/Area/Members.antt =====
-- `GetValidClientFromSector`: which clients it finds.
use mmotcpfighter.Base.{
  ℕ, suc, ◌+◌, ◌≤◌, ◌<◌, ◌≡◌, ◌≢◌, refl, ap, Bool, true, not, ◌||◌, List, [], ◌∷◌, ◌++◌, ◌==◌,
  ne→not_==, lt→ltb, if◌then◌else◌, length, Outcome, ok, Bool-cases, inl, inr, arith,
}
use mmotcpfighter.Position.{SectorPos}
use mmotcpfighter.Sector.{is_valid_sector, grid_index}
use mmotcpfighter.LinkedList.{Ptr, null}
use mmotcpfighter.LinkedList.Chain.{has, first, Chain, IsList}
use mmotcpfighter.World.{Server, invalid, max_session, max_around}
use mmotcpfighter.World.Monad.{set_at, load_client, load_session}
use mmotcpfighter.World.Session.{session_at, is_network_state_invalid}
use mmotcpfighter.World.Area.{load_sector, append_around, collect, get_valid_client_from_sector}

abbrev pub filter : (Ptr → Bool) → List Ptr → List Ptr
filter f [] = []
filter f (p ∷ ps) = let rest = filter f ps in if f p then p ∷ rest else rest

pub filter-append :
    (f : Ptr → Bool) (xs ys : List Ptr) → filter f (xs ++ ys) ≡ filter f xs ++ filter f ys
filter-append f [] ys = refl
filter-append f (p ∷ xs) ys = elim (Bool-cases (f p)) [
  | inl e ↦ rw (e, filter-append f xs ys) refl
  | inr e ↦ rw (e, filter-append f xs ys) refl
]

-- The array with the pointers written from an index on.
abbrev pub written : (ℕ → Ptr) → ℕ → List Ptr → ℕ → Ptr
written f num [] = f
written f num (p ∷ ps) = written (set_at f num p) (num + 1) ps

pub written-append :
    (f : ℕ → Ptr) (num : ℕ) (ps qs : List Ptr)
    → written f num (ps ++ qs) ≡ written (written f num ps) (num + length ps) qs
written-append f num [] qs = let e : num + 0 ≡ num = omega arith in rw e refl
written-append f num (p ∷ ps) qs =
    let e : num + 1 + length ps ≡ num + suc (length ps) = omega arith in
    rw (← e) (written-append (set_at f num p) (num + 1) ps qs)

-- The server with the pointers in `g_AroundInfo` from an index on.
abbrev pub found : Server → ℕ → List Ptr → Server
found s num ps = record s {
  around = record { num = s.around.num; clients = written s.around.clients num ps };
}

-- The outcome when these have been found.
abbrev pub finds : Server → ℕ → List Ptr → Outcome (ℕ × Server)
finds s num ps = ok (num + length ps, found s num ps)

-- The client's session is valid, and it is not the one to be left out.
abbrev pub is_wanted : Server → Ptr → Ptr → Bool
is_wanted s except p =
    not (((s.sessions (s.session_arr (s.clients p).handle)).is_valid == invalid) || (p == except))

abbrev pub wanted : Server → Ptr → List Ptr → List Ptr
wanted s except ps = filter (λ p. is_wanted s except p) ps

-- The client's session can be looked up.
abbrev pub IsKnown : Server → Ptr → Type 0
IsKnown s p = ((s.clients p).handle < max_session) × (s.session_arr (s.clients p).handle ≢ null)

abbrev pub AllKnown : Server → List Ptr → Type 0
AllKnown s ps = (p : Ptr) → has p ps ≡ true → IsKnown s p

append_around-found :
    (num : ℕ) (p : Ptr) (s : Server)
    → num < max_around
    → append_around num p s ≡ ok (num + 1, found s num (p ∷ []))
unfolding append_around
append_around-found num p s lt = rw (lt→ltb num max_around lt) refl

collect-wanted :
    (ps : List Ptr) (b : Ptr) (num : ℕ) (except : Ptr) (s : Server)
    → Chain s.links b ps null
    → AllKnown s ps
    → num + length (wanted s except ps) ≤ max_around
    → collect (length ps) (first ps null) num except s ≡ finds s num (wanted s except ps)
unfolding collect load_client is_network_state_invalid session_at load_session
collect-wanted [] b num except s chain known room = ap (λ n. ok (n, s)) (omega arith)
collect-wanted (p ∷ ps) b num except s (there, here, once, chain) known room =
    let (lt, on) = known p (ground arith) in
    let later : AllKnown s ps = λ q h. known q (ground arith) in
    elim (Bool-cases
      (((s.sessions (s.session_arr (s.clients p).handle)).is_valid == invalid) || (p == except))) [
        | inl out ↦
            let less = rw out at room in
            rw (ne→not_== p null there, lt→ltb _ _ lt, ne→not_== _ null on, out, here)
              (collect-wanted ps p num except s chain later less)
        | inr kept ↦
            let more = rw kept at room in
            let e : num + 1 + length (wanted s except ps)
                ≡ num + suc (length (wanted s except ps)) =
              omega arith in
            rw
              (
                ne→not_== p null there,
                lt→ltb _ _ lt,
                ne→not_== _ null on,
                kept,
                append_around-found num p s (omega arith),
                here,
                ← e,
              )
              (collect-wanted ps p (num + 1) except (found s num (p ∷ [])) chain later
                (omega arith))
      ]

-- The clients of each sector of the map are linked from its head, and as many as it counts; their sessions can be
-- looked up.
abbrev pub Holds : Server → SectorPos → List Ptr → Type 0
Holds s sp ps =
    (y : ℕ) × (x : ℕ) × (grid_index sp ≡ ok (y, x))
    × IsList s.links (s.grid y x).links ps
    × ((s.grid y x).num_of_client ≡ length ps)
    × AllKnown s ps

-- `members` tells the clients of every sector.
abbrev pub AllHeld : Server → (SectorPos → List Ptr) → Type 0
AllHeld s members = (sp : SectorPos) → is_valid_sector sp ≡ true → Holds s sp (members sp)

pub get_valid_client_from_sector-wanted :
    (sp : SectorPos) (num : ℕ) (except : Ptr) (s : Server) (ps : List Ptr)
    → Holds s sp ps
    → num + length (wanted s except ps) ≤ max_around
    → get_valid_client_from_sector sp num except s ≡ finds s num (wanted s except ps)
unfolding get_valid_client_from_sector load_sector
get_valid_client_from_sector-wanted sp num except s ps (y, x, index, list, number, known) room =
    rw (index, number, list.head_first) (collect-wanted ps null num except s list.chain known room)
