-- ===== src/World/Area.antt =====
-- Sector.h and Sector.cpp, the functions on the clients in the sectors: who is there, who is around,
-- and how a client enters and leaves a sector.
pub mod Frames
pub mod Members
pub mod Lists
pub mod Around
pub mod Nine
mod Tests
use mmotcpfighter.Base.{
  ℕ, zero, suc, ◌+◌, ◌-◌, ◌%◌, ◌^◌, List, [], ◌∷◌, ◌==◌, ltb, ◌&&◌, ◌||◌, if◌then◌else◌, ok, err,
  out_of_bounds,
}
use mmotcpfighter.Position.{SectorPos}
use mmotcpfighter.Direction.{DirVector, sector_offsets, vectors, at}
use mmotcpfighter.Sector.{is_valid_sector, offset_sector, grid_index}
use mmotcpfighter.LinkedList.{Ptr, null, link_last, unlink}
use mmotcpfighter.World.{SectorInfo, max_around}
use mmotcpfighter.World.Monad.{Cmd, pure, ◌>>=◌, ◌>>◌, state, modify, lift, set_at, load_client}
use mmotcpfighter.World.Session.{is_network_state_invalid}

-- `g_Sector[sp.shY][sp.shX]`, and a write to it.
unfoldable pub load_sector : SectorPos → Cmd SectorInfo
load_sector sp = do (y, x) ← lift (grid_index sp); s ← state; pure (s.grid y x)

unfoldable pub set_grid : (ℕ → ℕ → SectorInfo) → ℕ → ℕ → SectorInfo → ℕ → ℕ → SectorInfo
set_grid g y x i y' x' = if (y' == y) && (x' == x) then i else g y' x'

unfoldable pub store_sector : SectorPos → SectorInfo → Cmd (Unit {0})
unfolding set_grid
store_sector sp i = do
  (y, x) ← lift (grid_index sp)
  modify (λ s. record s { grid = set_grid s.grid y x i })

-- `pAroundInfo->CI.cArr[*pNum] = pClient; ++(*pNum);`
unfoldable pub append_around : ℕ → Ptr → Cmd ℕ
append_around num p s =
    if ltb num max_around
    then ok (
      num + 1,
      record s { around = record { num = s.around.num; clients = set_at s.around.clients num p } },
    )
    else err out_of_bounds

-- The loop of `GetValidClientFromSector`, with `n` rounds left, at the link of the client `cur`.
unfoldable pub collect : ℕ → Ptr → ℕ → Ptr → Cmd ℕ
collect zero cur num except = pure num
collect (suc n) cur num except = do
  c ← load_client cur
  bad ← is_network_state_invalid c.handle
  num' ← if bad || (cur == except) then pure num else append_around num cur
  s ← state
  collect n (s.links cur).next num' except

-- The number of clients found is handed back for `*pNum`.
unfoldable pub get_valid_client_from_sector : SectorPos → ℕ → Ptr → Cmd ℕ
get_valid_client_from_sector sp num except = do
  info ← load_sector sp
  collect info.num_of_client info.links.head num except

abbrev set_around_num : ℕ → Cmd (Unit {0})
set_around_num n =
    modify (λ s. record s { around = record { num = n; clients = s.around.clients } })

unfoldable pub around_from : List DirVector → SectorPos → ℕ → Ptr → Cmd ℕ
around_from [] sp num except = pure num
around_from (v ∷ vs) sp num except = do
  let temp = offset_sector sp v
  num' ← if is_valid_sector temp then get_valid_client_from_sector temp num except else pure num
  around_from vs sp num' except

-- The result of this function and of the next is `g_AroundInfo`, the field `around`.
unfoldable pub get_around_valid_client : SectorPos → Ptr → Cmd (Unit {0})
get_around_valid_client sp except = do n ← around_from sector_offsets sp 0 except; set_around_num n

unfoldable pub delta_from : ℕ → ℕ → SectorPos → ℕ → Cmd ℕ
delta_from zero dir base num = pure num
delta_from (suc n) dir base num = do
  v ← lift (at vectors dir)
  let sp = offset_sector base v
  num' ← if is_valid_sector sp then get_valid_client_from_sector sp num null else pure num
  delta_from n ((dir + 1) % 8) base num'

unfoldable pub get_delta_valid_client : ℕ → ℕ → SectorPos → Cmd (Unit {0})
get_delta_valid_client base_dir delta_sector_num base = do
  n ← delta_from delta_sector_num base_dir base 0
  set_around_num n

unfoldable pub add_client_at_sector : Ptr → SectorPos → Cmd (Unit {0})
add_client_at_sector client sp = do
  info ← load_sector sp
  s ← state
  (h, e) ← lift (link_last s.links info.links client)
  modify (λ s. record s { links = h })
  store_sector sp (record { links = e; num_of_client = (info.num_of_client + 1) % 2 ^ 32 })

unfoldable pub remove_client_at_sector : Ptr → SectorPos → Cmd (Unit {0})
remove_client_at_sector client sp = do
  info ← load_sector sp
  s ← state
  (h, e) ← lift (unlink s.links info.links client)
  modify (λ s. record s { links = h })
  store_sector sp (record { links = e; num_of_client = (info.num_of_client + 2 ^ 32 - 1) % 2 ^ 32 })
