-- ===== src/Main/Tests.antt =====
-- The loop of the server and the keys at concrete states.
use mmotcpfighter.Base.{negsuc}
use mmotcpfighter.Base.{
  ◌≡◌, ◌≢◌, refl, Bool, true, false, List, [], ◌∷◌, ◌⊎◌, pos, ok, err, Fault, out_of_fuel, arith,
  some,
}
use mmotcpfighter.World.{Server}
use mmotcpfighter.Logger.{debug}
use mmotcpfighter.Network.Loop.Good.{IsGood}
use mmotcpfighter.Network.Game.Sample.{two, platform, platform-IsHonest}
use mmotcpfighter.Main.{FrameState, Round, frame_step}
use mmotcpfighter.Main.Frame.{frame_step_slot}
use mmotcpfighter.Network.Startup.{Startup}
use mmotcpfighter.Main.Start.{globals, server_main, server_main_ends}
use mmotcpfighter.Main.Serve.{AllHonest}
use mmotcpfighter.Main.Control.{Control, press}
use mmotcpfighter.Main.Control.Keys.{press-lock, lock, unlock, lock_after}

-- The clock has gone round since the server began, 100 milliseconds before it did.
abbrev frames : FrameState
frames = record {
  old_frame_tick = negsuc 59;
  fps_check = negsuc 99;
  time = negsuc 49;
  fps = 1;
  network_loop = 30;
  first = negsuc 99;
}

-- 130 milliseconds after the start, two frames were missed.
frame_step_slot_example :
    ((frame_step 30 frames).0 ≡ true)
    × ((frame_step 30 frames).1.old_frame_tick ≡ pos 20)
    × ((frame_step 30 frames).1.fps ≡ 2)
frame_step_slot_example =
    frame_step_slot 4294967196 130 1 frames (omega arith) refl refl (omega arith)

-- A connection comes in the first round, and more in the second, in which the server is also asked to end in the third.
abbrev round : Bool → Round
round b = record {
  shut_down = b;
  platforms = λ k. platform;
  stack = λ i. 0;
  now = 1040;
  clock = λ n. 1041;
}

abbrev three : List Round
three = round false ∷ round false ∷ round true ∷ []

three-AllHonest : AllHonest three
three-AllHonest = (λ k. platform-IsHonest, (λ k. platform-IsHonest, (λ k. platform-IsHonest, tt)))

-- Winsock answers as it should, and the socket is 5.
abbrev startup : Startup
startup = record {
  started = true;
  socket = some 5;
  bound = true;
  listens = true;
  lingers = true;
  is_nonblocking = true;
}

server_main_ends_example :
    ((f : Fault) × (server_main 10001 10001 startup true 1000 three
          (globals two.clients two.links two.sessions)
        ≡ err f)
      × (f ≢ out_of_fuel))
    ⊎ ((t : Server) × (server_main 10001 10001 startup true 1000 three
            (globals two.clients two.links two.sessions)
          ≡ ok (tt, t))
        × IsGood t)
server_main_ends_example =
    server_main_ends 10001 10001 (omega arith) (omega arith) startup true 1000 three two.clients
      two.links two.sessions refl three-AllHonest

abbrev control : Control
control = record {
  control_mode = false;
  shut_down = false;
  logger = record {
    log_level = debug;
    log_count = 0;
    cur_size = 3000;
    log_buf = [];
    clock_reads = 0;
    file_lines = [];
    console_lines = [];
  };
  reports = [];
}

press-lock_example :
    press 20 10 b'j' (lock control) ≡ lock_after (press 20 10 b'j' (unlock control))
press-lock_example = press-lock 20 10 b'j' control (λ e. omega arith) (λ e. omega arith)
