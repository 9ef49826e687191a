-- ===== src/Network/Loop.antt =====
-- `SelectProc` and `NetworkProc` of Network.cpp, `ClearSessionInfo` of Session.cpp: the server's loop over its
-- connections. Up to 63 sessions at a time are asked for through `select`, beside the listening socket.
pub mod Frame
pub mod Good
pub mod Remove
pub mod Makes
pub mod Accept
pub mod Select
pub mod Batches
pub mod Ends
pub mod Clear
mod Tests
use mmotcpfighter.Base.{
  ◌+◌, ◌%◌, ◌^◌, ℕ, zero, suc, ◌-◌, Bool, true, Option, List, [], ◌∷◌, ◌==◌, ltb, leb,
  if◌then◌else◌, length, out_of_bounds, out_of_fuel, debug_break,
}
use mmotcpfighter.Ring.{get_use_size}
use mmotcpfighter.LinkedList.{Ptr}
use mmotcpfighter.Direction.{at}
use mmotcpfighter.World.{Server, SessionData}
use mmotcpfighter.World.Monad.{
  Cmd, pure, ◌>>=◌, ◌>>◌, fault, state, modify, lift, set_at, load_session,
}
use mmotcpfighter.World.Session.{session_at}
use mmotcpfighter.Network.Callbacks.{Callbacks}
use mmotcpfighter.Network.Sessions.{accept_proc, remove_session}
use mmotcpfighter.Network.Transfer.{Segment, SendResult, WsaRecv, send_proc, recv_proc}

abbrev pub fd_setsize : ℕ
fd_setsize = 64

-- What `select` returns: 0, `SOCKET_ERROR`, or how many sockets are ready, with what is left of the two sets.
pub data SelectResult : Type 0 where
  none_ready : SelectResult
  select_failed : SelectResult
  ready : ℕ → (ℕ → Bool) → (ℕ → Bool) → SelectResult

-- What the operating system answers during one `SelectProc`; the session's place in the batch tells its calls
-- apart. The memory for a new session is what the pool hands out in the state of the server, and so is that which the
-- callbacks know for a new client.
pub record Answers : Type 0 where
  pub select : List ℕ → List ℕ → SelectResult
  pub accepted : Option ℕ
  pub memory : Server → Ptr
  pub accept_time : ℕ
  pub recv_time : ℕ → ℕ
  pub wsa_recv : ℕ → WsaRecv
  pub wsa_send : ℕ → List Segment → SendResult
  pub callbacks : Server → Callbacks

-- `pSessionArrForSelect`, with what an earlier batch has left in it, the two sets, and `dwSockCount`.
pub record Batch : Type 0 where
  pub sessions : ℕ → Ptr
  pub read_set : List ℕ
  pub write_set : List ℕ
  pub sock_count : ℕ

accept_client : Answers → Cmd Bool
accept_client ans = do
  s ← state
  accept_proc (ans.callbacks s) ans.accepted (ans.memory s) ans.accept_time

recv_client : ℕ → Answers → ℕ → Ptr → Cmd Bool
recv_client fuel ans i p = do
  s ← state
  recv_proc fuel (ans.callbacks s) (ans.recv_time i) (ans.wsa_recv i) p

-- The loop of `SelectProc`, with `n` rounds left at index `i`. `left` is `iSelectRet`, which is only asked
-- whether it is above 0: below, it stays at 0 here.
select_from : ℕ → Answers → (ℕ → Ptr) → (ℕ → Bool) → (ℕ → Bool) → ℕ → ℕ → ℕ → Cmd (Unit {0})
select_from fuel ans arr readable writable zero i left = pure tt
select_from fuel ans arr readable writable (suc n) i left =
    let serve : Cmd (Unit {0}) = do
      sd ← load_session (arr i)
      left' ←
          if readable sd.client_sock
          then recv_client fuel ans i (arr i) >> pure (left - 1)
          else pure left
      sd' ← load_session (arr i)
      left'' ←
          if writable sd'.client_sock
          then send_proc (ans.wsa_send i) (arr i) >> pure (left' - 1)
          else pure left'
      select_from fuel ans arr readable writable n (i + 1) left''
    in if left == 0 then pure tt else serve

after_select : ℕ → ℕ → Answers → (ℕ → Ptr) → SelectResult → Cmd (Unit {0})
after_select fuel listen ans arr none_ready = pure tt
after_select fuel listen ans arr select_failed = fault debug_break
after_select fuel listen ans arr (ready n readable writable) = do
  left ← if readable listen then accept_client ans >> pure (n - 1) else pure n
  select_from fuel ans arr readable writable (fd_setsize - 1) 0 left

-- `listen` is `g_listenSock`, `fuel` that of `RecvProc`'s loop.
pub select_proc : ℕ → ℕ → Answers → Batch → Cmd (Unit {0})
select_proc fuel listen ans b =
    after_select fuel listen ans b.sessions (ans.select b.read_set b.write_set)

-- The sets after `FD_ZERO` and `FD_SET(g_listenSock, &readSet)`.
unfoldable pub new_batch : ℕ → (ℕ → Ptr) → Batch
new_batch listen arr = record {
  sessions = arr;
  read_set = listen ∷ [];
  write_set = [];
  sock_count = 1;
}

-- `FD_SET`s for a session, and its entry in the array.
unfoldable pub add_session : Ptr → SessionData → Batch → Batch
add_session p sd b = record {
  sessions = set_at b.sessions (b.sock_count - 1) p;
  read_set = sd.client_sock ∷ b.read_set;
  write_set = if ltb 0 (get_use_size sd.send_rb) then sd.client_sock ∷ b.write_set else b.write_set;
  sock_count = b.sock_count + 1;
}

-- Lines 221 to 230. The array has 63 entries.
enter_batch : Ptr → Batch → Cmd Batch
enter_batch p b = do
  sd ← load_session p
  if b.sock_count - 1 == 63
      then fault debug_break
      else if ltb (b.sock_count - 1) (fd_setsize - 1)
      then pure (add_session p sd b)
      else fault out_of_bounds

-- A full batch is asked for and begun anew. `k` counts the calls of `SelectProc`.
flush_batch : ℕ → ℕ → (ℕ → Answers) → Batch → ℕ → Cmd (Batch × ℕ)
flush_batch fuel listen answers b k =
    let flush : Cmd (Batch × ℕ) = do
      select_proc fuel listen (answers k) b
      pure (new_batch listen b.sessions, k + 1)
    in if leb fd_setsize b.sock_count then flush else pure (b, k)

-- The first loop of `NetworkProc`, at index `i`, with `rounds` as its fuel: `g_dwSessionNum` is read anew each time.
pub batches_from : ℕ → ℕ → (ℕ → Answers) → ℕ → ℕ → Batch → ℕ → Cmd (Batch × ℕ)
batches_from fuel listen answers zero i b k = fault out_of_fuel
batches_from fuel listen answers (suc rounds) i b k =
    let next : Cmd (Batch × ℕ) = do
      p ← session_at i
      b' ← enter_batch p b
      (b'', k') ← flush_batch fuel listen answers b' k
      batches_from fuel listen answers rounds (i + 1) b'' k'
    in do s ← state; if ltb i s.session_num then next else pure (b, k)

-- The second loop: `dwDisconNum` is read anew each time.
remove_from : ℕ → (ℕ → Callbacks) → ℕ → Cmd (Unit {0})
remove_from zero cb i = fault out_of_fuel
remove_from (suc rounds) cb i =
    let next : Cmd (Unit {0}) = do
      s ← state
      p ← lift (at s.discon i)
      remove_session (cb i) p
      modify (λ t. record t { discon_count = (t.discon_count + 1) % 2 ^ 32 })
      remove_from rounds cb (i + 1)
    in do s ← state; if ltb i (length s.discon) then next else pure tt

-- Lines 247 to 252.
pub remove_reserved : ℕ → (ℕ → Callbacks) → Cmd (Unit {0})
remove_reserved rounds cb = do remove_from rounds cb 0; modify (λ s. record s { discon = [] })

-- `arr` is what the array on the stack holds, `cb` the callbacks for each removal.
pub network_proc : ℕ → ℕ → ℕ → (ℕ → Answers) → (ℕ → Callbacks) → (ℕ → Ptr) → Cmd Bool
network_proc fuel rounds listen answers cb arr = do
  (b, k) ← batches_from fuel listen answers rounds 0 (new_batch listen arr) 0
  if ltb 0 b.sock_count then select_proc fuel listen (answers k) b else pure tt
  remove_reserved rounds cb
  pure true

-- The loop of `ClearSessionInfo`, with `n` rounds left at index `i`.
clear_from : (ℕ → Callbacks) → ℕ → ℕ → Cmd (Unit {0})
clear_from cb zero i = pure tt
clear_from cb (suc n) i = do
  p ← session_at i
  sd ← load_session p
  (cb i).remove_client sd.client
  clear_from cb n (i + 1)

-- The number of sessions is read once. The sockets are closed and the memory goes back to the pools.
pub clear_session_info : (ℕ → Callbacks) → Cmd (Unit {0})
clear_session_info cb = do s ← state; clear_from cb s.session_num 0
