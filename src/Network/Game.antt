-- ===== src/Network/Game.antt =====
-- The network layer with the callbacks of the game: what the layer asks of its callbacks holds of them.
pub mod Platform
pub mod Sample
mod Tests
use mmotcpfighter.Base.{
  ℕ, ◌+◌, ◌<◌, ◌≡◌, ◌≢◌, refl, sym, ap, ◌∙◌, subst, Bool, List, ◌++◌, ◌==◌, ◌⊎◌, inl, inr,
  ne→not_==, ==_refl, Outcome, ok, err, Fault, out_of_fuel, arith,
}
use mmotcpfighter.Memory.{Block}
use mmotcpfighter.Ring.{Ring, buffer_size}
use mmotcpfighter.Ring.Valid.{IsValid}
use mmotcpfighter.LinkedList.{Ptr, null}
use mmotcpfighter.World.{Server, max_session}
use mmotcpfighter.World.Monad.{Cmd, set_at, load_session, load_client}
use mmotcpfighter.World.Frame.{Reserved, Keeps, Ends, faults, returns, Ends-Keeps}
use mmotcpfighter.Contents.Players.{remove_client, packet_proc, create_player}
use mmotcpfighter.Contents.Players.Frames.{
  remove_client-Framed, packet_proc-Framed, create_player-Ends, newcomer,
}
use mmotcpfighter.Contents.Tick.{update}
use mmotcpfighter.Contents.Tick.Frames.{update-Framed}
use mmotcpfighter.Network.Callbacks.{Callbacks, game}
use mmotcpfighter.Network.Transfer.{WsaRecv, received, recv_buffers, recv_proc}
use mmotcpfighter.Network.Transfer.Buffers.{Receives}
use mmotcpfighter.Network.Transfer.Rounds.{LeavesRing, recv_proc_ends}
use mmotcpfighter.Network.Sessions.{remove_session, register_session}
use mmotcpfighter.Network.Sessions.Handles.{
  Consistent, client_at, LeavesHandles, remove_session-Consistent, remove_session-err,
}
use mmotcpfighter.Network.Loop.Frame.{KeepsFrame, KeepsFrame-LeavesRing, Keeps-LeavesHandles}
use mmotcpfighter.Network.Sessions.Register.{entered, MakesClient, register_session-Consistent}

-- The callbacks of the game keep to the frame.
pub game-KeepsFrame : (player : Ptr) (rand_y rand_x : ℕ) → KeepsFrame (game player rand_y rand_x)
unfolding game
game-KeepsFrame player rand_y rand_x = record {
  removes = remove_client-Framed;
  handles = packet_proc-Framed;
}

module _ (player : Ptr) (rand_y rand_x : ℕ) where
  abbrev callbacks : Callbacks
  callbacks = game player rand_y rand_x

  -- `RecvProc` with the game's `PacketProc` ends on a session whose receiving ring is valid, whatever is
  -- received, where `WSARecv` keeps to its segments: fuel above `BUFFER_SIZE` is enough.
  pub game-recv_proc_ends :
      (fuel now : ℕ) (wsa_recv : WsaRecv) (p : Ptr) (s : Server)
      → p ≢ null
      → IsValid (s.sessions p).recv_rb
      → buffer_size < fuel
      → ((n : ℕ) (b : Block)
          → wsa_recv (s.sessions p).recv_rb.buffer (recv_buffers (s.sessions p).recv_rb)
            ≡ received n b
          → Receives (s.sessions p).recv_rb.buffer (recv_buffers (s.sessions p).recv_rb) n b)
      → recv_proc fuel callbacks now wsa_recv p s ≢ err out_of_fuel
  game-recv_proc_ends fuel now wsa_recv p s not_null v enough h =
      recv_proc_ends fuel callbacks now wsa_recv p s not_null
        (KeepsFrame-LeavesRing callbacks (game-KeepsFrame player rand_y rand_x) p) v enough h

-- What `RemoveSession` on the session at a place comes to: the fault of the callback, or places that agree
-- with the handles, one session fewer.
abbrev pub RemovedOrFaulted : Callbacks → Server → ℕ → Type 0
RemovedOrFaulted cb s i =
    ((f : Fault) × (f ≢ out_of_fuel)
      × (cb.remove_client (client_at s i) s ≡ err f)
      × (remove_session cb (s.session_arr i) s ≡ err f))
    ⊎ ((s' : Server) × (remove_session cb (s.session_arr i) s ≡ ok (tt, s'))
        × Consistent s'
        × (s'.session_num + 1 ≡ s.session_num))

-- `RemoveSession` with the game's `RemoveClient`, where the places of the sessions and the handles of their
-- clients agree: it faults exactly as `RemoveClient` does, and not for want of fuel, or it returns,
-- they agree again and there is one session fewer.
pub game-remove_session :
    (player : Ptr) (rand_y rand_x i : ℕ) (s : Server)
    → Consistent s
    → i < s.session_num
    → RemovedOrFaulted (game player rand_y rand_x) s i
unfolding game
game-remove_session player rand_y rand_x i s c lt =
    go _ refl ((remove_client-Framed (client_at s i)).at s)
  where
    go :
        (o : Outcome (Unit {0} × Server))
        → remove_client (client_at s i) s ≡ o
        → Ends s o
        → RemovedOrFaulted (game player rand_y rand_x) s i
    go (err f) e (faults other) =
        inl (f, other, e, remove_session-err (game player rand_y rand_x) s i c lt e)
    go (ok (u, t)) e (returns k) =
        inr (
          remove_session-Consistent (game player rand_y rand_x) s t i c lt e
            (Keeps-LeavesHandles k))

-- The sessions that are invalid are those reserved for removal, each once.
abbrev AllReserved : Server → Type 0
AllReserved s = Reserved s.session_num s s.discon

Keeps-AllReserved : {s t : Server} → Keeps s t → AllReserved s → AllReserved t
Keeps-AllReserved {s} {t} k r =
    subst (λ n. Reserved n t t.discon) (sym k.num)
      (subst (λ ps. Reserved s.session_num t ps) (sym k.grown)
        (k.reserved s.session_num s.discon r))

-- Where the sessions that are invalid are exactly those that are reserved for removal, each once, they are so
-- after a frame's `Update`, after a packet's `PacketProc` and after `RemoveClient`, where these return: no session
-- becomes invalid and is forgotten, and none is reserved twice.
pub game-AllReserved :
    (s : Server)
    → AllReserved s
    → ((clock : ℕ → ℕ) (t : Server) → update clock s ≡ ok (tt, t) → AllReserved t)
      × ((c : Ptr) (type : ℕ) (b : Bool) (t : Server)
          → packet_proc c type s ≡ ok (b, t)
          → AllReserved t)
      × ((c : Ptr) (t : Server) → remove_client c s ≡ ok (tt, t) → AllReserved t)
game-AllReserved s r = (
  λ clock t e. Keeps-AllReserved (Ends-Keeps _ ((update-Framed clock).at s) e) r,
  λ c type b t e. Keeps-AllReserved (Ends-Keeps _ ((packet_proc-Framed c type).at s) e) r,
  λ c t e. Keeps-AllReserved (Ends-Keeps _ ((remove_client-Framed c).at s) e) r,
)
