-- ===== src/Main.antt =====
-- main.cpp: the loop of the server. Each round serves the connections once, and begins a frame where one is due.
pub mod Frame
pub mod Serve
pub mod Start
pub mod Control
mod Tests
use mmotcpfighter.Base.{
  ◌%◌, ◌^◌, ℕ, ◌+◌, Bool, true, List, [], ◌∷◌, if◌then◌else◌, ℤ, pos, ◌+ℤ◌, ◌-ℤ◌, leb_ℤ, to_int,
  of_dword, rem_ℤ,
}
use mmotcpfighter.LinkedList.{Ptr, null}
use mmotcpfighter.World.Monad.{Cmd, pure, ◌>>=◌, ◌>>◌}
use mmotcpfighter.Contents.Tick.{update}
use mmotcpfighter.Network.Callbacks.{game}
use mmotcpfighter.Network.Loop.{network_proc, clear_session_info}
use mmotcpfighter.Network.Game.Platform.{Platform, game_answers}

abbrev pub tick_per_frame : ℕ
tick_per_frame = 40

-- `g_iOldFrameTick` and so on. The two counts are `int`s, by their patterns.
pub record FrameState : Type 0 where
  pub old_frame_tick : ℤ
  pub fps_check : ℤ
  pub time : ℤ
  pub fps : ℕ
  pub network_loop : ℕ
  pub first : ℤ

-- The difference of two `int`s, which goes round where it overflows.
unfoldable pub sub_int : ℤ → ℤ → ℤ
sub_int a b = to_int (a -ℤ b)

-- Lines 187 to 193, where `Update` is only decided on: the result says whether it is called.
unfoldable pub frame_step : ℕ → FrameState → Bool × FrameState
frame_step now f =
    let time = of_dword now in
    let is_due = leb_ℤ (pos tick_per_frame) (sub_int time f.old_frame_tick) in
    (
      is_due,
      record f {
        time = time;
        old_frame_tick =
            if is_due
            then sub_int time (rem_ℤ (sub_int time f.first) tick_per_frame)
            else f.old_frame_tick;
        fps = if is_due then (f.fps + 1) % 2 ^ 32 else f.fps;
      },
    )

-- Lines 194 to 204; what is printed is not modelled.
unfoldable pub fps_step : FrameState → FrameState
fps_step f =
    if leb_ℤ (pos 1000) (sub_int f.time f.fps_check)
    then record f { fps_check = to_int (f.fps_check +ℤ pos 1000); network_loop = 0; fps = 0 }
    else f

-- Lines 177 to 181.
unfoldable pub start_frames : ℕ → FrameState
start_frames now = record {
  old_frame_tick = of_dword now;
  fps_check = of_dword now;
  time = of_dword now;
  fps = 0;
  network_loop = 0;
  first = of_dword now;
}

-- What one round of the loop meets: whether `g_bShutDown` is set, the platform for each `SelectProc`, what the stack holds,
-- and what `timeGetTime` returns, to the loop and to `Update`.
pub record Round : Type 0 where
  pub shut_down : Bool
  pub platforms : ℕ → Platform
  pub stack : ℕ → Ptr
  pub now : ℕ
  pub clock : ℕ → ℕ

-- The loop, for as many rounds as are given.
server_loop : ℕ → ℕ → ℕ → List Round → FrameState → Cmd FrameState
server_loop fuel rounds listen [] f = pure f
server_loop fuel rounds listen (r ∷ rs) f =
    let go_on : Cmd FrameState = do
      _ ←
          network_proc fuel rounds listen (λ k. game_answers (r.platforms k)) (λ _. game null 0 0)
            r.stack
      let (is_due, f') =
          frame_step r.now (record f { network_loop = (f.network_loop + 1) % 2 ^ 32 })
      if is_due then update r.clock else pure tt
      server_loop fuel rounds listen rs (fps_step f')
    in if r.shut_down then pure f else go_on

-- From the start of the loop to the end of the process.
pub serve : ℕ → ℕ → ℕ → ℕ → List Round → Cmd (Unit {0})
serve fuel rounds listen now rs = do
  _ ← server_loop fuel rounds listen rs (start_frames now)
  clear_session_info (λ _. game null 0 0)
