-- ===== src/Contents/Players.antt =====
-- CallBack.cpp, what the network layer calls: a client comes, sends a packet, goes. Also the
-- functions of CSCContents.h that take a client's packet apart.
pub mod Frames
use mmotcpfighter.Base.{
  ℕ, ◌+◌, ◌-◌, ◌%◌, ◌/◌, Bool, true, ◌==◌, if◌then◌else◌, pos, of_short_pattern, debug_break,
}
use mmotcpfighter.Position.{Pos}
use mmotcpfighter.Direction.{dir_ll, dir_nomove}
use mmotcpfighter.Sector.{
  calc_sector, range_move_bottom, range_move_right, sector_height, sector_width, sector_pos,
}
use mmotcpfighter.Serial.{read_unsigned_char, read_short, read_unsigned_long}
use mmotcpfighter.Packets.{
  make_create_my_character, make_create_other_character, make_delete_character,
}
use mmotcpfighter.LinkedList.{Ptr, null}
use mmotcpfighter.World.Monad.{Cmd, pure, ◌>>=◌, ◌>>◌, fault, state, load_client, store_client}
use mmotcpfighter.World.Area.{
  get_around_valid_client, add_client_at_sector, remove_client_at_sector,
}
use mmotcpfighter.World.Notify.{
  make_sb1, read_sb1, clear_sb1, clear_sb2, send_sb1, send_sb2, each_around, sum_around,
}
use mmotcpfighter.Contents.Crossing.{introduce_sb2}
use mmotcpfighter.Contents.Movement.{cs_move_start, cs_move_stop}
use mmotcpfighter.Contents.Attack.{cs_attack1, cs_attack2, cs_attack3, cs_echo}

abbrev pub init_hp : ℕ
init_hp = 100

-- A coordinate from what `rand()` returned.
abbrev pub start_coordinate : ℕ → ℕ → ℕ
start_coordinate range rand = rand % (range - 1) + 1

-- One round of the loop of `CreatePlayer`.
greet_round : ℕ → Ptr → Cmd ℕ
greet_round size other = do send_sb1 size other; clear_sb1; o ← load_client other; introduce_sb2 o

-- Lines 58 to 78.
pub greet : Ptr → ℕ → Pos → Cmd (Unit {0})
greet client id start = do
  new_to_other ← make_sb1 (make_create_other_character id dir_ll start (pos init_hp))
  other_to_new ← sum_around (greet_round new_to_other)
  send_sb2 other_to_new client
  clear_sb2

-- `client` is what the memory pool hands out; `rand_y` and `rand_x` are what `rand()` returns.
-- `OldSector` keeps what the memory held.
pub create_player : Ptr → ℕ → ℕ → ℕ → ℕ → Cmd (Unit {0})
create_player client rand_y rand_x handle id = do
  let y = start_coordinate range_move_bottom rand_y
  let x = start_coordinate range_move_right rand_x
  let start : Pos = record { y = pos y; x = pos x }
  let sector = sector_pos (pos (y / sector_height)) (pos (x / sector_width))
  store_client client (λ c. record c {
    id = id;
    handle = handle;
    position = start;
    view_dir = dir_ll;
    move_dir = dir_nomove;
    hp = pos init_hp;
    cur_sector = sector;
  })
  mine ← make_sb1 (make_create_my_character id dir_ll start (pos init_hp))
  send_sb1 mine client
  clear_sb1
  get_around_valid_client sector client
  s ← state
  if s.around.num == 0 then pure tt else greet client id start
  add_client_at_sector client sector

-- `RemoveClient_IMPL`; the memory goes back to the pool.
pub remove_client : Ptr → Cmd (Unit {0})
remove_client client = do
  c ← load_client client
  let sector = calc_sector c.position
  remove_client_at_sector client sector
  get_around_valid_client sector null
  size ← make_sb1 (make_delete_character c.id)
  each_around (send_sb1 size)
  clear_sb1

-- The functions of CSCContents.h that read a direction and a position, x first, and hand them on.
recv_placed : (ℕ → Pos → Cmd Bool) → Cmd Bool
recv_placed handler = do
  dir ← read_sb1 read_unsigned_char
  x ← read_sb1 read_short
  y ← read_sb1 read_short
  clear_sb1
  _ ← handler dir (record { y = of_short_pattern y; x = of_short_pattern x })
  pure true

cs_move_start_recv : Ptr → Cmd Bool
cs_move_start_recv client = recv_placed (cs_move_start client)

cs_move_stop_recv : Ptr → Cmd Bool
cs_move_stop_recv client = recv_placed (cs_move_stop client)

cs_attack1_recv : Ptr → Cmd Bool
cs_attack1_recv client = recv_placed (cs_attack1 client)

cs_attack2_recv : Ptr → Cmd Bool
cs_attack2_recv client = recv_placed (cs_attack2 client)

cs_attack3_recv : Ptr → Cmd Bool
cs_attack3_recv client = recv_placed (cs_attack3 client)

cs_echo_recv : Ptr → Cmd Bool
cs_echo_recv client = do
  time ← read_sb1 read_unsigned_long
  clear_sb1
  _ ← cs_echo client time
  pure true

-- `PacketProc`: another type is a `__debugbreak()`.
pub packet_proc : Ptr → ℕ → Cmd Bool
packet_proc client type =
    if type == 10
    then cs_move_start_recv client
    else if type == 12
    then cs_move_stop_recv client
    else if type == 20
    then cs_attack1_recv client
    else if type == 22
    then cs_attack2_recv client
    else if type == 24
    then cs_attack3_recv client
    else if type == 252
    then cs_echo_recv client
    else fault debug_break
