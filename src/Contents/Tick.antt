-- ===== src/Contents/Tick.antt =====
-- Update.cpp, `Update`: once a frame every client is dropped if it is silent or dead, and else moved
-- by one step in its direction.
pub mod Frames
pub mod Step
mod Tests
use mmotcpfighter.Base.{
  ◌+◌, ◌%◌, ◌^◌, ℕ, ◌-◌, ◌*◌, true, List, [], ◌∷◌, ◌==◌, ltb, if◌then◌else◌, pos, ◌+ℤ◌, ◌*ℤ◌, leb_ℤ,
  to_short,
}
use mmotcpfighter.Position.{Pos}
use mmotcpfighter.Direction.{DirVector, vectors, at, dir_nomove}
use mmotcpfighter.Sector.{calc_sector, is_valid_pos}
use mmotcpfighter.LinkedList.{Ptr}
use mmotcpfighter.World.{Client}
use mmotcpfighter.World.Monad.{Cmd, pure, ◌>>=◌, ◌>>◌, modify, lift, load_client, store_client}
use mmotcpfighter.World.Session.{
  is_network_state_invalid, get_last_recv_time, alert_session_of_client_invalid,
  get_all_valid_client,
}
use mmotcpfighter.Contents.Movement.{cross_if_moved}

abbrev pub speed_player_x : ℕ
speed_player_x = 6

abbrev pub speed_player_y : ℕ
speed_player_y = 4

abbrev pub time_out : ℕ
time_out = 30 * 1000

-- The position after one step.
unfoldable pub step_position : Pos → DirVector → Pos
step_position p v = record {
  y = to_short (p.y +ℤ v.y *ℤ pos speed_player_y);
  x = to_short (p.x +ℤ v.x *ℤ pos speed_player_x);
}

-- Lines 147 to 168.
move_client : Ptr → Client → Cmd (Unit {0})
move_client p c =
    let walk = λ (new_pos : Pos). do
      cross_if_moved p (calc_sector c.position) (calc_sector new_pos) true
      store_client p (λ c'. record c' { position = new_pos })
    in do
      v ← lift (at vectors c.move_dir)
      let new_pos = step_position c.position v
      if is_valid_pos new_pos then walk new_pos else pure tt

time_out_client : Client → Cmd (Unit {0})
time_out_client c = do
  modify (λ s. record s { discon_by_timeout = (s.discon_by_timeout + 1) % 2 ^ 32 })
  alert_session_of_client_invalid c.handle

-- What is done for a client that is not silent: it dies, stands or moves.
live_client : Ptr → Client → Cmd (Unit {0})
live_client p c =
    if leb_ℤ c.hp (pos 0)
    then alert_session_of_client_invalid c.handle
    else if c.move_dir == dir_nomove
    then pure tt
    else move_client p c

-- And for one whose session is valid. The difference is that of `DWORD`s.
check_client : ℕ → Ptr → Client → Cmd (Unit {0})
check_client now p c = do
  last ← get_last_recv_time c.handle
  if ltb time_out ((now + 2 ^ 32 - last) % 2 ^ 32) then time_out_client c else live_client p c

-- One round of the loop; `now` is what `timeGetTime` returns.
pub update_client : ℕ → Ptr → Cmd (Unit {0})
unfolding live_client check_client
update_client now p = do
  c ← load_client p
  bad ← is_network_state_invalid c.handle
  if bad then pure tt else check_client now p c

-- The clock is read once for each client, here by its place in the list.
update_clients : (ℕ → ℕ) → ℕ → List Ptr → Cmd (Unit {0})
update_clients clock i [] = pure tt
update_clients clock i (p ∷ ps) = do update_client (clock i) p; update_clients clock (i + 1) ps

pub update : (ℕ → ℕ) → Cmd (Unit {0})
update clock = do ps ← get_all_valid_client; update_clients clock 0 ps
