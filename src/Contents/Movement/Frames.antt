-- ===== src/Contents/Movement/Frames.antt =====
-- The packets that start and stop a walk, by the frame rules.
use mmotcpfighter.Base.{◌+◌, ◌%◌, ◌^◌, ℕ, Bool, refl, Outcome, Settles}
use mmotcpfighter.Position.{Pos, SectorPos}
use mmotcpfighter.Serial.{SerializeBuffer}
use mmotcpfighter.Packets.Settles.{makes_settle}
use mmotcpfighter.LinkedList.{Ptr}
use mmotcpfighter.World.{Client}
use mmotcpfighter.World.Monad.{modify, store_client}
use mmotcpfighter.World.Frame.{Framed, Framed-modify, Keeps-rest, frames}
use mmotcpfighter.World.Session.Frames.{store_client-Framed, is_network_state_invalid-Framed}
use mmotcpfighter.World.Notify.Frames.{each_around-Framed}
use mmotcpfighter.World.Area.Frames.{get_sector_move_dir-Settles, get_around_valid_client-Framed}
use mmotcpfighter.Contents.Crossing.Frames.{messages, sector_update_and_notify-Framed}
use mmotcpfighter.Contents.Movement.{
  view_of_move, resync, cross_if_moved, tell_others, start_valid, cs_move_start, stop_valid,
  cs_move_stop,
}

sync_count-Framed : Framed (modify (λ s. record s { sync_count = (s.sync_count + 1) % 2 ^ 32 }))
sync_count-Framed = Framed-modify _ (λ s. Keeps-rest s _ refl refl refl refl refl)

resync-Framed : (id : ℕ) (server_pos client_pos : Pos) → Framed (resync id server_pos client_pos)
unfolding resync
resync-Framed id server_pos client_pos =
    search
      (
        frames, messages, makes_settle, sync_count-Framed, get_around_valid_client-Framed,
        each_around-Framed,
      )
      depth 16

pub cross_if_moved-Framed :
    (p : Ptr) (old_sector new_sector : SectorPos) (is_move : Bool)
    → Framed (cross_if_moved p old_sector new_sector is_move)
unfolding cross_if_moved
cross_if_moved-Framed p old_sector new_sector is_move =
    search (frames, messages, get_sector_move_dir-Settles, sector_update_and_notify-Framed) depth 16

tell_others-Framed :
    (p : Ptr) (sector : SectorPos) (make : SerializeBuffer → Outcome (ℕ × SerializeBuffer))
    → ((sb : SerializeBuffer) → Settles (make sb))
    → Framed (tell_others p sector make)
unfolding tell_others
tell_others-Framed p sector make settles =
    search (frames, messages, settles, get_around_valid_client-Framed, each_around-Framed) depth 16

set_view-Framed :
    (p : Ptr) (dir : ℕ)
    → Framed (store_client p (λ c. record c { view_dir = view_of_move dir c.view_dir }))
set_view-Framed p dir = store_client-Framed p _ (λ c. refl)

set_walk-Framed :
    (p : Ptr) (dir : ℕ) (pos : Pos)
    → Framed (store_client p (λ c. record c { move_dir = dir; position = pos }))
set_walk-Framed p dir pos = store_client-Framed p _ (λ c. refl)

ruleset walking =
    (resync-Framed, cross_if_moved-Framed, tell_others-Framed, set_view-Framed, set_walk-Framed)

start_valid-Framed : (p : Ptr) (c : Client) (dir : ℕ) (pos : Pos) → Framed (start_valid p c dir pos)
unfolding start_valid
start_valid-Framed p c dir pos = search (frames, makes_settle, walking) depth 16

pub cs_move_start-Framed : (p : Ptr) (dir : ℕ) (pos : Pos) → Framed (cs_move_start p dir pos)
unfolding cs_move_start
cs_move_start-Framed p dir pos =
    search (frames, messages, is_network_state_invalid-Framed, start_valid-Framed) depth 16

stop_valid-Framed : (p : Ptr) (c : Client) (dir : ℕ) (pos : Pos) → Framed (stop_valid p c dir pos)
unfolding stop_valid
stop_valid-Framed p c dir pos = search (frames, makes_settle, walking) depth 16

pub cs_move_stop-Framed : (p : Ptr) (dir : ℕ) (pos : Pos) → Framed (cs_move_stop p dir pos)
unfolding cs_move_stop
cs_move_stop-Framed p dir pos =
    search (frames, messages, is_network_state_invalid-Framed, stop_valid-Framed) depth 16
