-- ===== src/World/Session.antt =====
-- What the contents see of a session: the functions of MiddleWare.h and Session.h, `EnqPacketRB` of
-- Network.cpp and `GetAllValidClient` of Session.cpp.
pub mod Enqueue
pub mod Frames
pub mod Reserve
pub mod Sending
mod Tests
use mmotcpfighter.Base.{
  ◌+◌, ◌%◌, ◌^◌, ℕ, zero, suc, Bool, true, false, List, [], ◌∷◌, ◌++◌, ◌==◌, ltb, if◌then◌else◌,
  length, out_of_bounds,
}
use mmotcpfighter.Memory.{Block}
use mmotcpfighter.Ring.{enqueue}
use mmotcpfighter.LinkedList.{Ptr}
use mmotcpfighter.World.{SessionData, invalid, max_session}
use mmotcpfighter.World.Monad.{
  Cmd, pure, ◌>>=◌, ◌>>◌, fault, state, modify, lift, load_client, load_session, store_session,
}

-- `g_pSessionArr[handle]`
unfoldable pub session_at : ℕ → Cmd Ptr
session_at handle s =
    (if ltb handle max_session then pure (s.session_arr handle) else fault out_of_bounds) s

unfoldable pub is_network_state_invalid : ℕ → Cmd Bool
is_network_state_invalid handle = do
  p ← session_at handle
  sd ← load_session p
  pure (sd.is_valid == invalid)

unfoldable pub get_last_recv_time : ℕ → Cmd ℕ
get_last_recv_time handle = do p ← session_at handle; sd ← load_session p; pure sd.last_recv_time

-- `DisconInfoArr[dwDisconNum++] = pSession`
unfoldable pub push_discon : Ptr → Cmd (Unit {0})
push_discon p = do
  s ← state
  if ltb (length s.discon) max_session
      then modify (λ t. record t { discon = t.discon ++ (p ∷ []) })
      else fault out_of_bounds

unfoldable pub reserve_session_disconnected : Ptr → Cmd (Unit {0})
reserve_session_disconnected p = do
  store_session p (λ sd. record sd { is_valid = invalid })
  push_discon p

unfoldable pub alert_session_of_client_invalid : ℕ → Cmd (Unit {0})
alert_session_of_client_invalid handle = do
  p ← session_at handle
  store_session p (λ sd. record sd { is_valid = invalid })
  push_discon p

-- What `EnqPacketRB` does where the ring has no room.
unfoldable pub reject_full : Ptr → Cmd Bool
reject_full p = do
  modify (λ s. record s { discon_by_rb_full = (s.discon_by_rb_full + 1) % 2 ^ 32 })
  reserve_session_disconnected p
  pure false

-- And for a valid session.
unfoldable pub enq_valid : Ptr → SessionData → Block → ℕ → Cmd Bool
enq_valid p sd packet size = do
  (ret, rb) ← lift (enqueue sd.send_rb packet size)
  store_session p (λ sd'. record sd' { send_rb = rb })
  if ret == 0 then reject_full p else pure true

unfoldable pub enq_packet_rb : Ptr → Block → ℕ → Cmd Bool
enq_packet_rb client packet size = do
  c ← load_client client
  p ← session_at c.handle
  sd ← load_session p
  if sd.is_valid == invalid then pure false else enq_valid p sd packet size

-- `GetAllValidClient`: the clients of the valid sessions among `n` from index `i` on.
unfoldable pub valid_clients_from : ℕ → ℕ → Cmd (List Ptr)
valid_clients_from zero i = pure []
valid_clients_from (suc n) i = do
  p ← session_at i
  sd ← load_session p
  rest ← valid_clients_from n (i + 1)
  pure (if sd.is_valid == invalid then rest else sd.client ∷ rest)

unfoldable pub get_all_valid_client : Cmd (List Ptr)
get_all_valid_client = do s ← state; valid_clients_from s.session_num 0
