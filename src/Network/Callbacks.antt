-- ===== src/Network/Callbacks.antt =====
-- MiddleWare.h: what the network layer calls, set by `InitializeMiddleWare`.
use mmotcpfighter.Base.{ℕ, Bool}
use mmotcpfighter.LinkedList.{Ptr}
use mmotcpfighter.World.Monad.{Cmd, ◌>>◌, pure}
use mmotcpfighter.Contents.Players

-- `REGISTER_CLIENT` hands back the new client through its first argument.
pub record Callbacks : Type 0 where
  pub register_client : ℕ → ℕ → Cmd Ptr
  pub remove_client : Ptr → Cmd (Unit {0})
  pub packet_proc : Ptr → ℕ → Cmd Bool

-- The callbacks of CallBack.cpp, as main.cpp registers them; for a new player, with the memory and
-- the random numbers that it gets.
unfoldable pub game : Ptr → ℕ → ℕ → Callbacks
game client rand_y rand_x = record {
  register_client = λ handle id. do
    Players.create_player client rand_y rand_x handle id
    pure client;
  remove_client = Players.remove_client;
  packet_proc = Players.packet_proc;
}
