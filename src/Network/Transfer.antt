-- ===== src/Network/Transfer.antt =====
-- Network.cpp, `SendProc` and `RecvProc`: bytes between a session's rings and its socket, and the
-- packets in what has been received.
pub mod Buffers
pub mod Send
pub mod Receive
pub mod Rounds
pub mod Good
mod Tests
use mmotcpfighter.Base.{
  ℕ, zero, suc, ◌+◌, ◌-◌, Bool, true, false, not, List, [], ◌∷◌, ◌++◌, ◌==◌, ltb, leb,
  if◌then◌else◌, debug_break, out_of_fuel,
}
use mmotcpfighter.Memory.{Block, new_block, bytes}
use mmotcpfighter.Ring.{
  Ring, get_use_size, get_free_size, direct_dequeue_size, direct_enqueue_size, get_read_start,
  get_write_start, move_in_pos, move_out_pos, peek, dequeue,
}
use mmotcpfighter.Serial.{SerializeBuffer, move_write_pos, move_read_pos}
use mmotcpfighter.Packets.{packet_code}
use mmotcpfighter.LinkedList.{Ptr}
use mmotcpfighter.World.{Server, SessionData, invalid}
use mmotcpfighter.World.Monad.{
  Cmd, pure, ◌>>=◌, ◌>>◌, fault, state, modify, lift, load_session, store_session,
}
use mmotcpfighter.World.Session.{reserve_session_disconnected}
use mmotcpfighter.Network.Callbacks.{Callbacks}

-- A `WSABUF` that points into the ring's buffer: offset and length.
abbrev pub Segment : Type 0
Segment = ℕ × ℕ

-- The buffers that `SendProc` and `RecvProc` describe.
unfoldable pub send_buffers : Ring → List Segment
send_buffers r =
    let use_size = get_use_size r in
    let direct = direct_dequeue_size r in
    if leb use_size direct
    then (get_read_start r, use_size) ∷ []
    else (get_read_start r, direct) ∷ (0, use_size - direct) ∷ []

unfoldable pub recv_buffers : Ring → List Segment
recv_buffers r =
    let direct = direct_enqueue_size r in
    let free_size = get_free_size r in
    if leb free_size direct
    then (get_write_start r, free_size) ∷ []
    else (get_write_start r, direct) ∷ (0, free_size - direct) ∷ []

-- `WSAGetLastError()`
pub data ErrorCode : Type 0 where
  would_block conn_reset other_error : ErrorCode

pub data SendResult : Type 0 where
  sent : ℕ → SendResult
  send_failed : ErrorCode → SendResult

-- With a success comes what the ring's buffer holds after the call.
pub data RecvResult : Type 0 where
  received : ℕ → Block → RecvResult
  recv_failed : ErrorCode → RecvResult

-- `WSARecv`, given the ring's buffer and the segments that it may fill.
abbrev pub WsaRecv : Type 0
WsaRecv = Block → List Segment → RecvResult

-- What a failed call leads to, in both functions.
on_error : Ptr → ErrorCode → Cmd (Unit {0})
on_error p would_block = pure tt
on_error p conn_reset = reserve_session_disconnected p
on_error p other_error = reserve_session_disconnected p

after_send : Ptr → SessionData → SendResult → Cmd (Unit {0})
after_send p sd (send_failed code) = on_error p code
after_send p sd (sent n) = do
  (_, rb) ← lift (move_out_pos sd.send_rb n)
  store_session p (λ sd'. record sd' { send_rb = rb })

-- `result` is what `WSASend` answers for the buffers `send_buffers sd.send_rb`.
pub send_proc : (List Segment → SendResult) → Ptr → Cmd (Unit {0})
send_proc wsa_send p =
    let send = λ (sd : SessionData). after_send p sd (wsa_send (send_buffers sd.send_rb)) in
    do
      sd ← load_session p
      if sd.is_valid == invalid
          then pure tt
          else if get_use_size sd.send_rb == 0
          then pure tt
          else send sd

-- `sizeof(Header)`
abbrev pub header_size : ℕ
header_size = 3

-- A packet is taken out of the ring into the first buffer, behind its header, and handed on. The
-- result says whether there was a whole one.
pub take_packet : Callbacks → Ptr → SessionData → ℕ → ℕ → Cmd Bool
take_packet cb p sd size type = do
  s ← state
  (n, rb, b) ← lift (dequeue sd.recv_rb s.sb1.buffer (header_size + size))
  let hand_on : Cmd Bool = do
    store_session p (λ sd'. record sd' { recv_rb = rb })
    modify (λ t. record t {
      sb1 = move_read_pos header_size (move_write_pos n (record t.sb1 { buffer = b }));
    })
    _ ← cb.packet_proc sd.client type
    pure true
  if n == 0 then pure false else hand_on

-- One round of the loop of `RecvProc`, whose result says whether there is another.
pub recv_round : Callbacks → Ptr → Cmd Bool
recv_round cb p =
    let checked = λ (sd : SessionData) (header : Block). do
      s ← state
      if not (header.byte 0 == packet_code)
          then fault debug_break
          else if ltb s.sb1.buffer_size (header.byte 1)
          then fault debug_break
          else take_packet cb p sd (header.byte 1) (header.byte 2)
    in do
      sd ← load_session p
      (n, header) ← lift (peek sd.recv_rb (new_block header_size) header_size)
      if n == 0 then pure false else checked sd header

pub recv_loop : ℕ → Callbacks → Ptr → Cmd Bool
recv_loop zero cb p = fault out_of_fuel
recv_loop (suc fuel) cb p = do
  more ← recv_round cb p
  if more then recv_loop fuel cb p else pure false

-- After `WSARecv` has put `n` bytes into the ring's buffer.
after_recv : ℕ → Callbacks → Ptr → SessionData → RecvResult → Cmd Bool
after_recv fuel cb p sd (recv_failed code) = do on_error p code; pure false
after_recv fuel cb p sd (received n buffer) =
    let parse : Cmd Bool = do
      let (_, rb) = move_in_pos (record sd.recv_rb { buffer = buffer }) n
      store_session p (λ sd'. record sd' { recv_rb = rb })
      recv_loop fuel cb p
    in let closed : Cmd Bool = do reserve_session_disconnected p; pure false
      in if n == 0 then closed else parse

-- `now` is what `timeGetTime` returns.
pub recv_proc : ℕ → Callbacks → ℕ → WsaRecv → Ptr → Cmd Bool
recv_proc fuel cb now wsa_recv p =
    let receive = λ (sd : SessionData). do
      store_session p (λ sd'. record sd' { last_recv_time = now })
      after_recv fuel cb p sd (wsa_recv sd.recv_rb.buffer (recv_buffers sd.recv_rb))
    in do sd ← load_session p; if sd.is_valid == invalid then pure false else receive sd
