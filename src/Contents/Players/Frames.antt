-- ===== src/Contents/Players/Frames.antt =====
-- The callbacks by the frame rules.
use mmotcpfighter.Base.{ℕ, Bool, ◌/◌, ◌≢◌, ne→not_==, pos}
use mmotcpfighter.Position.{Pos}
use mmotcpfighter.Serial.Settles.{read_value-Settles}
use mmotcpfighter.Packets.Settles.{makes_settle, make_create_my_character-Settles}
use mmotcpfighter.LinkedList.{Ptr, null}
use mmotcpfighter.World.Monad.{Cmd, set_at, store_client}
use mmotcpfighter.World.Frame.{Framed, frames, Ends, Framed-bind}
use mmotcpfighter.World.Notify.Frames.{read_sb1-Framed, each_around-Framed, make_sb1-Framed}
use mmotcpfighter.World.Area.Frames.{
  get_around_valid_client-Framed, remove_client_at_sector-Framed, add_client_at_sector-Framed,
}
use mmotcpfighter.Contents.Crossing.Frames.{messages, introduce_sb2-Framed}
use mmotcpfighter.Contents.Movement.Frames.{cs_move_start-Framed, cs_move_stop-Framed}
use mmotcpfighter.Contents.Attack.Frames.{
  break-Framed, cs_attack1-Framed, cs_attack2-Framed, cs_attack3-Framed, cs_echo-Framed,
}
use mmotcpfighter.Direction.{dir_ll, dir_nomove}
use mmotcpfighter.Sector.{
  range_move_bottom, range_move_right, sector_height, sector_width, sector_pos,
}
use mmotcpfighter.World.{Server}
use mmotcpfighter.Contents.Players.{
  start_coordinate, init_hp, create_player, greet_round, greet, remove_client, recv_placed,
  cs_move_start_recv, cs_move_stop_recv, cs_attack1_recv, cs_attack2_recv, cs_attack3_recv,
  cs_echo_recv, packet_proc,
}

greet_round-Framed : (size : ℕ) (p : Ptr) → Framed (greet_round size p)
unfolding greet_round
greet_round-Framed size p = search (frames, messages, introduce_sb2-Framed) depth 16

greet-Framed : (p : Ptr) (id : ℕ) (start : Pos) → Framed (greet p id start)
unfolding greet
greet-Framed p id start = search (frames, messages, makes_settle, greet_round-Framed) depth 16

pub remove_client-Framed : (p : Ptr) → Framed (remove_client p)
unfolding remove_client
remove_client-Framed p =
    search
      (
        frames, messages, makes_settle, remove_client_at_sector-Framed,
        get_around_valid_client-Framed, each_around-Framed,
      )
      depth 24

recv_placed-Framed :
    (handler : ℕ → Pos → Cmd Bool)
    → ((dir : ℕ) (p : Pos) → Framed (handler dir p))
    → Framed (recv_placed handler)
unfolding recv_placed
recv_placed-Framed handler h =
    search (frames, messages, read_sb1-Framed, read_value-Settles, h) depth 24

module _ (p : Ptr) where
  cs_move_start_recv-Framed : Framed (cs_move_start_recv p)
  unfolding cs_move_start_recv
  cs_move_start_recv-Framed = recv_placed-Framed _ (cs_move_start-Framed p)

  cs_move_stop_recv-Framed : Framed (cs_move_stop_recv p)
  unfolding cs_move_stop_recv
  cs_move_stop_recv-Framed = recv_placed-Framed _ (cs_move_stop-Framed p)

  cs_attack1_recv-Framed : Framed (cs_attack1_recv p)
  unfolding cs_attack1_recv
  cs_attack1_recv-Framed = recv_placed-Framed _ (cs_attack1-Framed p)

  cs_attack2_recv-Framed : Framed (cs_attack2_recv p)
  unfolding cs_attack2_recv
  cs_attack2_recv-Framed = recv_placed-Framed _ (cs_attack2-Framed p)

  cs_attack3_recv-Framed : Framed (cs_attack3_recv p)
  unfolding cs_attack3_recv
  cs_attack3_recv-Framed = recv_placed-Framed _ (cs_attack3-Framed p)

  cs_echo_recv-Framed : Framed (cs_echo_recv p)
  unfolding cs_echo_recv
  cs_echo_recv-Framed =
      search (frames, messages, read_sb1-Framed, read_value-Settles, cs_echo-Framed) depth 24

  pub packet_proc-Framed : (type : ℕ) → Framed (packet_proc p type)
  unfolding packet_proc
  packet_proc-Framed type =
      search
        (
          frames, cs_move_start_recv-Framed, cs_move_stop_recv-Framed, cs_attack1_recv-Framed,
          cs_attack2_recv-Framed, cs_attack3_recv-Framed, cs_echo_recv-Framed, break-Framed,
        )
        depth 16

-- The state with the new player's client.
abbrev pub newcomer : Ptr → ℕ → ℕ → ℕ → ℕ → Server → Server
newcomer client rand_y rand_x handle id s =
    let y = start_coordinate range_move_bottom rand_y in
    let x = start_coordinate range_move_right rand_x in
    record s {
      clients = set_at s.clients client (record (s.clients client) {
        id = id;
        handle = handle;
        position = record { y = pos y; x = pos x };
        view_dir = dir_ll;
        move_dir = dir_nomove;
        hp = pos init_hp;
        cur_sector = sector_pos (pos (y / sector_height)) (pos (x / sector_width));
      });
    }

pub create_player-Ends :
    (client : Ptr) (rand_y rand_x handle id : ℕ) (s : Server)
    → client ≢ null
    → Ends
        (newcomer client rand_y rand_x handle id s)
        (create_player client rand_y rand_x handle id s)
unfolding create_player store_client
create_player-Ends client rand_y rand_x handle id s not_null = rw (ne→not_== _ _ not_null) (
    (Framed-bind _ _
        (make_sb1-Framed _ (make_create_my_character-Settles id dir_ll _ (pos init_hp)))
        (λ mine.
          search
            (
              frames, messages, get_around_valid_client-Framed, greet-Framed,
              add_client_at_sector-Framed,
            )
            depth 24)).at
      _)
