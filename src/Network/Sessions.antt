-- ===== src/Network/Sessions.antt =====
-- Session.cpp, and `AcceptProc` of Network.cpp: connections come and go. The valid ones stand at the
-- front of `g_pSessionArr`; a client knows its place there, its handle.
pub mod Handles
pub mod Register
pub mod Removed
use mmotcpfighter.Base.{
  ℕ, ◌+◌, ◌-◌, ◌%◌, ◌^◌, Bool, true, false, Option, none, some, ◌==◌, ltb, leb, if◌then◌else◌,
  out_of_bounds, debug_break,
}
use mmotcpfighter.Memory.{new_block}
use mmotcpfighter.Ring.{Ring, actual_size}
use mmotcpfighter.LinkedList.{Ptr, null}
use mmotcpfighter.World.{Server, SessionData, valid, max_session}
use mmotcpfighter.World.Monad.{
  Cmd, pure, ◌>>=◌, ◌>>◌, fault, state, modify, set_at, load_client, store_client, load_session,
  store_session,
}
use mmotcpfighter.World.Session.{session_at}
use mmotcpfighter.Network.Callbacks.{Callbacks}

-- A ring from the pool, with its positions reset.
abbrev pub fresh_ring : Ring
fresh_ring = record { out_pos = 0; in_pos = 0; buffer = new_block actual_size }

-- `g_pSessionArr[i] = p`
unfoldable pub set_session_at : ℕ → Ptr → Cmd (Unit {0})
unfolding set_at
set_session_at i p s =
    (if ltb i max_session
        then modify (λ t. record t { session_arr = set_at t.session_arr i p })
        else fault out_of_bounds)
      s

-- `pSession` is the memory that the pool hands out.
pub register_session : Callbacks → Ptr → ℕ → ℕ → ℕ → Cmd (Unit {0})
register_session cb p sock id recv_time = do
  store_session p (λ sd. record sd {
    id = id;
    client_sock = sock;
    last_recv_time = recv_time;
    is_valid = valid;
    recv_rb = fresh_ring;
    send_rb = fresh_ring;
  })
  s ← state
  set_session_at s.session_num p
  client ← cb.register_client s.session_num id
  store_session p (λ sd. record sd { client = client })
  modify (λ t. record t { session_num = (t.session_num + 1) % 2 ^ 32 })

-- Puts the last session into the place of the one that goes.
move_last : ℕ → ℕ → Cmd (Unit {0})
move_last last handle = do
  moved ← session_at last
  set_session_at handle moved
  sd ← load_session moved
  store_client sd.client (λ c. record c { handle = handle })

-- `HackHandleFromClient` reads the client's handle. The socket is closed and the memory goes back to
-- the pools.
pub remove_session : Callbacks → Ptr → Cmd (Unit {0})
remove_session cb p = do
  sd ← load_session p
  c ← load_client sd.client
  let handle = c.handle
  cb.remove_client sd.client
  s ← state
  let last = (s.session_num + 2 ^ 32 - 1) % 2 ^ 32
  if last == handle then pure tt else move_last last handle
  modify (λ t. record t { session_num = (t.session_num + 2 ^ 32 - 1) % 2 ^ 32 })

-- `socket` is what `accept` returns: none for `INVALID_SOCKET`. Where the server is full the socket
-- is closed.
unfoldable pub accept_proc : Callbacks → Option ℕ → Ptr → ℕ → Cmd Bool
accept_proc cb none p now = fault debug_break
accept_proc cb (some sock) p now =
    let register : Cmd Bool = do
      s ← state
      modify (λ t. record t { next_id = (t.next_id + 1) % 2 ^ 32 })
      register_session cb p sock s.next_id now
      pure true
    in do s ← state; if leb max_session s.session_num then pure false else register
