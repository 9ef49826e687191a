-- ===== src/Contents/Movement.antt =====
-- CSCContents.cpp, the packets that start and stop a walk. (CSCContents.h takes them apart, in `Packet`.)
pub mod Frames
pub mod Sync
mod Tests
use mmotcpfighter.Base.{
  ◌+◌, ◌%◌, ◌^◌, ℕ, Bool, true, false, ◌==◌, ◌||◌, ltb, if◌then◌else◌, ◌-ℤ◌, nat_abs, Outcome,
}
use mmotcpfighter.Position.{Pos, SectorPos}
use mmotcpfighter.Direction.{dir_ll, dir_lu, dir_ru, dir_rr, dir_rd, dir_ld, dir_nomove}
use mmotcpfighter.Sector.{calc_sector, is_same_sector, get_sector_move_dir}
use mmotcpfighter.Packets.{make_sync, make_move_start, make_move_stop}
use mmotcpfighter.Serial.{SerializeBuffer}
use mmotcpfighter.LinkedList.{Ptr, null}
use mmotcpfighter.World.{Client}
use mmotcpfighter.World.Monad.{
  Cmd, pure, ◌>>=◌, ◌>>◌, state, modify, lift, load_client, store_client,
}
use mmotcpfighter.World.Session.{is_network_state_invalid}
use mmotcpfighter.World.Area.{get_around_valid_client}
use mmotcpfighter.World.Notify.{make_sb1, clear_sb1, send_sb1, each_around}
use mmotcpfighter.Contents.Crossing.{sector_update_and_notify}

abbrev pub error_range : ℕ
error_range = 50

-- `IsSync`, as it is written: the second line subtracts `serverPos.shX` from itself.
unfoldable pub is_sync : Pos → Pos → Bool
is_sync server_pos client_pos =
    let is_y_sync = ltb error_range (nat_abs (server_pos.y -ℤ client_pos.y)) in
    let is_x_sync = ltb error_range (nat_abs (server_pos.x -ℤ server_pos.x)) in
    is_x_sync || is_y_sync

-- The `switch` of `CS_MOVE_START`: the side that a walk in a direction looks to, or as before.
unfoldable pub view_of_move : ℕ → ℕ → ℕ
view_of_move move_dir view_dir =
    if (move_dir == dir_ru) || ((move_dir == dir_rr) || (move_dir == dir_rd))
    then dir_rr
    else if (move_dir == dir_ll) || ((move_dir == dir_lu) || (move_dir == dir_ld))
    then dir_ll
    else view_dir

-- Where the client is too far from where the server has it, those around it are told the server's
-- position, which also stands for the client's from then on.
resync : ℕ → Pos → Pos → Cmd Pos
resync id server_pos client_pos =
    let correct : Cmd Pos = do
      modify (λ s. record s { sync_count = (s.sync_count + 1) % 2 ^ 32 })
      size ← make_sb1 (make_sync id server_pos)
      get_around_valid_client (calc_sector server_pos) null
      each_around (send_sb1 size)
      clear_sb1
      pure server_pos
    in if is_sync server_pos client_pos then correct else pure client_pos

-- `if (!IsSameSector(oldSector, newSector)) …`
pub cross_if_moved : Ptr → SectorPos → SectorPos → Bool → Cmd (Unit {0})
cross_if_moved client old_sector new_sector is_move =
    let cross : Cmd (Unit {0}) = do
      dir ← lift (get_sector_move_dir old_sector new_sector)
      sector_update_and_notify client dir old_sector new_sector is_move
    in if is_same_sector old_sector new_sector then pure tt else cross

-- One packet to all that see the client, if there is anyone.
tell_others : Ptr → SectorPos → (SerializeBuffer → Outcome (ℕ × SerializeBuffer)) → Cmd (Unit {0})
tell_others client sector make =
    let tell : Cmd (Unit {0}) = do size ← make_sb1 make; each_around (send_sb1 size); clear_sb1
    in do
      get_around_valid_client sector client
      s ← state
      if s.around.num == 0 then pure tt else tell

start_valid : Ptr → Client → ℕ → Pos → Cmd Bool
start_valid client c move_dir sent_pos = do
  store_client client (λ c'. record c' { view_dir = view_of_move move_dir c'.view_dir })
  client_pos ← resync c.id c.position sent_pos
  let new_sector = calc_sector client_pos
  cross_if_moved client (calc_sector c.position) new_sector false
  tell_others client new_sector (make_move_start c.id move_dir client_pos)
  store_client client (λ c'. record c' { move_dir = move_dir; position = client_pos })
  pure true

pub cs_move_start : Ptr → ℕ → Pos → Cmd Bool
cs_move_start client move_dir client_pos = do
  c ← load_client client
  bad ← is_network_state_invalid c.handle
  if bad then pure false else start_valid client c move_dir client_pos

stop_valid : Ptr → Client → ℕ → Pos → Cmd Bool
stop_valid client c view_dir sent_pos = do
  client_pos ← resync c.id c.position sent_pos
  let new_sector = calc_sector client_pos
  cross_if_moved client (calc_sector c.position) new_sector true
  tell_others client new_sector (make_move_stop c.id view_dir client_pos)
  store_client client (λ c'. record c' { move_dir = dir_nomove; position = client_pos })
  pure true

pub cs_move_stop : Ptr → ℕ → Pos → Cmd Bool
cs_move_stop client view_dir client_pos = do
  c ← load_client client
  bad ← is_network_state_invalid c.handle
  if bad then pure false else stop_valid client c view_dir client_pos
