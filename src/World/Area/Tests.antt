-- ===== src/World/Area/Tests.antt =====
-- A server with two clients in the corner of the map.
use mmotcpfighter.Base.{
  ℕ, ◌≡◌, refl, ap, to_short, ◌+ℤ◌, true, ◌&&◌, List, [], ◌∷◌, ◌++◌, ◌==◌, if◌then◌else◌, length,
  pos, ok, Bool-cases, inl, inr, arith,
}
use mmotcpfighter.Position.{SectorPos}
use mmotcpfighter.Sector.{sector_pos, is_valid_sector, offset_sector, grid_index, get_delta_sector}
use mmotcpfighter.LinkedList.{Ptr, null, node, ends}
use mmotcpfighter.LinkedList.Chain.{has}
use mmotcpfighter.World.{Server}
use mmotcpfighter.World.Sample.{server_with}
use mmotcpfighter.Network.Sessions.{fresh_ring}
use mmotcpfighter.World.Area.{
  get_around_valid_client, get_delta_valid_client, add_client_at_sector, remove_client_at_sector,
}
use mmotcpfighter.World.Area.Members.{IsKnown, wanted, written}
use mmotcpfighter.World.Area.Nine.{sectors_around, get_around_valid_client-wanted}
use mmotcpfighter.World.Area.Lists.{
  IsCell, Populated, put, cells, Populated-AllHeld, add_client_at_sector-Populated,
  remove_client_at_sector-Populated,
}
use mmotcpfighter.World.Area.Around.{of_sectors, get_delta_valid_client-wanted}

-- The clients 1 and 2 are in the sector in the corner.
abbrev members : ℕ → ℕ → List Ptr
members y x = if (y == 0) && (x == 0) then 1 ∷ 2 ∷ [] else []

abbrev server : Server
server = record (server_with fresh_ring) {
  links = λ p. if p == 1 then node 2 0 else if p == 2 then node 0 1 else node 0 0;
  grid = λ y x.
      if (y == 0) && (x == 0)
      then record { links = ends 1 2; num_of_client = 2 }
      else record { links = ends 0 0; num_of_client = 0 };
}

server-Populated : Populated members server
server-Populated = record {
  list = λ y x cell. elim (Bool-cases ((y == 0) && (x == 0))) [
    | inl corner ↦ rw corner (record {
      head_first = refl;
      tail_last = refl;
      chain = (λ e. omega arith, refl, refl, (λ e. omega arith, refl, refl, tt));
    })
    | inr other ↦ rw other (record { head_first = refl; tail_last = refl; chain = tt })
  ];
  number = λ y x cell. elim (Bool-cases ((y == 0) && (x == 0))) [
    | inl corner ↦ rw corner refl
    | inr other ↦ rw other refl
  ];
  once = λ y x y' x' p cell cell' mem mem'. ground arith;
}

server-IsKnown : (y x : ℕ) (p : Ptr) → IsCell y x → has p (members y x) ≡ true → IsKnown server p
server-IsKnown y x p cell mem = (omega arith, λ e. omega arith)

abbrev corner : SectorPos
corner = sector_pos (pos 0) (pos 0)

corner-index : grid_index corner ≡ ok (0, 0)
unfolding grid_index
corner-index = refl

found_first : wanted server 2 (of_sectors (cells members) (sectors_around 0 0)) ≡ 1 ∷ []
unfolding is_valid_sector offset_sector to_short ◌+ℤ◌
found_first = refl

get_around_valid_client-wanted_example :
    get_around_valid_client corner 2 server
    ≡ ok (
      tt,
      record server {
        around = record {
          num = length (wanted server 2 (of_sectors (cells members) (sectors_around 0 0)));
          clients =
              written server.around.clients 0
                (wanted server 2 (of_sectors (cells members) (sectors_around 0 0)));
        };
      },
    )
get_around_valid_client-wanted_example =
    get_around_valid_client-wanted (cells members) 0 0 2 server (omega arith) (omega arith)
      (Populated-AllHeld members server server-Populated server-IsKnown)
      (let size = ap length found_first in omega arith)

-- One to the right of the corner, from its left on, clockwise.
abbrev beside : SectorPos
beside = sector_pos (pos 0) (pos 1)

abbrev delta : List SectorPos
delta = corner ∷ sector_pos (pos 0) (pos 2) ∷ []

beside-delta : get_delta_sector 5 beside 0 ≡ ok delta
unfolding get_delta_sector is_valid_sector offset_sector to_short ◌+ℤ◌
beside-delta = refl

get_delta_valid_client-wanted_example :
    get_delta_valid_client 0 5 beside server
    ≡ ok (
      tt,
      record server {
        around = record {
          num = length (wanted server null (of_sectors (cells members) delta));
          clients =
              written server.around.clients 0
                (wanted server null (of_sectors (cells members) delta));
        };
      },
    )
get_delta_valid_client-wanted_example =
    get_delta_valid_client-wanted (cells members) 0 5 beside server delta
      (Populated-AllHeld members server server-Populated server-IsKnown) beside-delta (omega arith)

add_client_at_sector-Populated_example :
    (t : Server) × (add_client_at_sector 3 corner server ≡ ok (tt, t))
    × Populated (put members 0 0 (members 0 0 ++ (3 ∷ []))) t
add_client_at_sector-Populated_example =
    add_client_at_sector-Populated members 3 corner 0 0 server server-Populated
      (omega arith, omega arith) corner-index (λ e. omega arith) (λ y x cell. ground arith)
      (omega arith)

remove_client_at_sector-Populated_example :
    (t : Server) × (remove_client_at_sector 2 corner server ≡ ok (tt, t))
    × Populated (put members 0 0 ((1 ∷ []) ++ [])) t
remove_client_at_sector-Populated_example =
    remove_client_at_sector-Populated members 2 (1 ∷ []) [] corner 0 0 server server-Populated
      (omega arith, omega arith) corner-index refl (omega arith)
