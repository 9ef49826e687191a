-- ===== src/Network/Game/Tests.antt =====
-- The game's callbacks at concrete states.
use mmotcpfighter.Base.{ℕ, ◌≡◌, ◌≢◌, Bool, err, ok, out_of_fuel, arith}
use mmotcpfighter.LinkedList.{Ptr}
use mmotcpfighter.World.{Server}
use mmotcpfighter.Contents.Players.{remove_client, packet_proc}
use mmotcpfighter.Contents.Tick.{update}
use mmotcpfighter.Network.Callbacks.{game}
use mmotcpfighter.Network.Transfer.{recv_proc}
use mmotcpfighter.Network.Loop.{network_proc}
use mmotcpfighter.Network.Loop.Ends.{ServedOrFaulted}
use mmotcpfighter.Network.Game.{
  RemovedOrFaulted, AllReserved, game-recv_proc_ends, game-remove_session, game-AllReserved,
}
use mmotcpfighter.Network.Game.Platform.{game_answers, game-network_proc_ends}
use mmotcpfighter.Network.Game.Sample.{
  two, two-Consistent, two-Reserved, two-IsGood, platform, platform-IsHonest,
}

game-recv_proc_ends_example :
    recv_proc 10001 (game 3 5 6) 7 (platform.wsa_recv 0) 1 two ≢ err out_of_fuel
game-recv_proc_ends_example =
    game-recv_proc_ends 3 5 6 10001 7 (platform.wsa_recv 0) 1 two (λ e. omega arith) (omega arith)
      (omega arith)
      (λ n b e. (platform-IsHonest.segments 0).apply (two.sessions 1).recv_rb n b (omega arith) e)

game-remove_session_example : RemovedOrFaulted (game 3 5 6) two 0
game-remove_session_example = game-remove_session 3 5 6 0 two two-Consistent (omega arith)

game-AllReserved_example :
    ((clock : ℕ → ℕ) (t : Server) → update clock two ≡ ok (tt, t) → AllReserved t)
    × ((c : Ptr) (type : ℕ) (b : Bool) (t : Server)
        → packet_proc c type two ≡ ok (b, t)
        → AllReserved t)
    × ((c : Ptr) (t : Server) → remove_client c two ≡ ok (tt, t) → AllReserved t)
game-AllReserved_example = game-AllReserved two two-Reserved

game-network_proc_ends_example :
    ServedOrFaulted
      (network_proc 10001 10001 5 (λ k. game_answers platform) (λ _. game 0 0 0) (λ i. 0) two)
game-network_proc_ends_example =
    game-network_proc_ends 10001 10001 5 (λ k. platform) (λ i. 0) two (omega arith) (omega arith)
      (λ k. platform-IsHonest) two-IsGood
