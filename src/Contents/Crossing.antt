-- ===== src/Contents/Crossing.antt =====
-- Update.cpp, `SectorUpdateAndNotify`: a client goes over from a sector to one beside it. Those that
-- it leaves behind and it are told to delete one another, those that come into view to create.
pub mod Frames
pub mod Steps
pub mod View
mod Tests
use mmotcpfighter.Base.{ℕ, ◌+◌, ◌%◌, Bool, ◌==◌, if◌then◌else◌}
use mmotcpfighter.Position.{SectorPos}
use mmotcpfighter.Direction.{dir_nomove, remove_dirs, add_dirs, at}
use mmotcpfighter.Packets.{make_delete_character, make_create_other_character, make_move_start}
use mmotcpfighter.LinkedList.{Ptr}
use mmotcpfighter.World.{Client}
use mmotcpfighter.World.Monad.{Cmd, pure, ◌>>=◌, ◌>>◌, state, lift, load_client, store_client}
use mmotcpfighter.World.Area.{add_client_at_sector, remove_client_at_sector, get_delta_valid_client}
use mmotcpfighter.World.Notify.{
  make_sb1, make_sb2, clear_sb1, clear_sb2, send_sb1, send_sb2, sum_around,
}

-- One round of the first loop.
delete_round : ℕ → Ptr → Cmd ℕ
delete_round size other = do
  send_sb1 size other
  o ← load_client other
  make_sb2 (make_delete_character o.id)

-- Lines 57 to 67.
notify_removed : Ptr → ℕ → Cmd (Unit {0})
notify_removed client id = do
  one_to_all ← make_sb1 (make_delete_character id)
  all_to_one ← sum_around (delete_round one_to_all)
  send_sb2 all_to_one client
  clear_sb1
  clear_sb2

-- The packets that introduce a client, in the second buffer: where it is, and that it moves.
unfoldable pub introduce_sb2 : Client → Cmd ℕ
introduce_sb2 o = do
  create ← make_sb2 (make_create_other_character o.id o.view_dir o.position o.hp)
  start ←
      if o.move_dir == dir_nomove
      then pure 0
      else make_sb2 (make_move_start o.id o.move_dir o.position)
  pure (create + start)

-- One round of the second loop.
create_round : ℕ → Ptr → Cmd ℕ
create_round size other = do send_sb1 size other; o ← load_client other; introduce_sb2 o

-- Lines 75 to 97. `c` holds what was read from the client at the start.
notify_added : Ptr → Client → SectorPos → SectorPos → Bool → Cmd (Unit {0})
notify_added client c old_sector new_sector is_move = do
  create ← make_sb1 (make_create_other_character c.id c.view_dir c.position c.hp)
  now ← load_client client
  start ← if is_move then make_sb1 (make_move_start c.id now.move_dir c.position) else pure 0
  all_to_one ← sum_around (create_round (create + start))
  send_sb2 all_to_one client
  clear_sb1
  clear_sb2
  store_client client (λ c'. record c' { old_sector = old_sector; cur_sector = new_sector })

unfoldable pub delta_sector_num : ℕ → ℕ
delta_sector_num dir = if dir % 2 == 0 then 3 else 5

pub sector_update_and_notify : Ptr → ℕ → SectorPos → SectorPos → Bool → Cmd (Unit {0})
sector_update_and_notify client dir old_sector new_sector is_move = do
  c ← load_client client
  remove_client_at_sector client old_sector
  add_client_at_sector client new_sector
  remove_dir ← lift (at remove_dirs dir)
  get_delta_valid_client remove_dir (delta_sector_num dir) old_sector
  s ← state
  if s.around.num == 0 then pure tt else notify_removed client c.id
  add_dir ← lift (at add_dirs dir)
  get_delta_valid_client add_dir (delta_sector_num dir) new_sector
  s ← state
  if s.around.num == 0 then pure tt else notify_added client c old_sector new_sector is_move
