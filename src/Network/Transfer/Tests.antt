-- ===== src/Network/Transfer/Tests.antt =====
-- Sending and receiving at a concrete session, whose rings go round the end of their buffers.
use mmotcpfighter.Base.{
  ℕ, ◌+◌, ◌≡◌, refl, true, [], ◌∷◌, ◌++◌, ◌==◌, if◌then◌else◌, arith, ok, err, take, debug_break,
}
use mmotcpfighter.Memory.{Block, bytes}
use mmotcpfighter.Ring.{
  Ring, actual_size, get_use_size, get_free_size, direct_dequeue_size, direct_enqueue_size,
  move_in_pos,
}
use mmotcpfighter.Ring.Valid.{IsValid, contents}
use mmotcpfighter.World.Sample.{session_with, server_with}
use mmotcpfighter.World.{Server, SessionData}
use mmotcpfighter.World.Monad.{resume}
use mmotcpfighter.Network.Callbacks.{Callbacks}
use mmotcpfighter.Network.Transfer.{sent, send_buffers, recv_buffers, send_proc, recv_round}
use mmotcpfighter.Network.Transfer.Buffers.{
  segment_bytes, is_in_segments, total_size, Receives, move_in_pos_received,
}
use mmotcpfighter.Network.Transfer.Send.{with_send_rb, send_proc_sent}
use mmotcpfighter.Network.Transfer.Receive.{
  frame, handed_over, recv_round_bad_code, recv_round_whole,
}

-- The bytes 137, 1, 252 and 5 from the last position on: a packet of type 252 with a payload of one
-- byte.
abbrev byte_at : ℕ → ℕ
byte_at i =
    if i == 10000
    then 137
    else if i == 0
    then 1
    else if i == 1
    then 252
    else if i == 2
    then 5
    else 0

abbrev ring : Ring
ring = record {
  out_pos = 10000;
  in_pos = 3;
  buffer = record { size = actual_size; byte = byte_at };
}

ring-IsValid : IsValid ring
ring-IsValid = omega arith

-- Two more bytes, 8 and 9.
abbrev filled : Block
filled = record {
  size = actual_size;
  byte = λ i. if i == 3 then 8 else if i == 4 then 9 else byte_at i;
}

filled-Receives : Receives ring.buffer (recv_buffers ring) 2 filled
unfolding recv_buffers get_use_size get_free_size direct_enqueue_size is_in_segments total_size
filled-Receives = record { same_size = refl; same = λ i h. ground arith; at_most = omega arith }

move_in_pos_received_example :
    IsValid (move_in_pos (record ring { buffer = filled }) 2).1
    × (contents (move_in_pos (record ring { buffer = filled }) 2).1
        ≡ contents ring ++ take 2 (segment_bytes filled (recv_buffers ring)))
move_in_pos_received_example = move_in_pos_received 2 filled ring-IsValid filled-Receives

abbrev session : SessionData
session = session_with ring

abbrev server : Server
server = server_with ring

send_proc_sent_example :
    (rb : Ring) × (send_proc (λ _. sent 2) 1 server ≡ ok (tt, with_send_rb server 1 rb))
    × IsValid rb
    × (contents ring ≡ take 2 (segment_bytes ring.buffer (send_buffers ring)) ++ contents rb)
unfolding send_buffers get_use_size direct_dequeue_size total_size
send_proc_sent_example =
    send_proc_sent (λ _. sent 2) server 1 (λ h. omega arith) 2 (λ h. omega arith) ring-IsValid
      (λ h. omega arith) refl (omega arith)

-- Callbacks that count the packets.
abbrev counting : Callbacks
counting = record {
  register_client = λ _ _ s. ok (1, s);
  remove_client = λ _ s. ok (tt, s);
  packet_proc = λ _ _ s. ok (true, record s { sync_count = s.sync_count + 1 });
}

recv_round_whole_example :
    (rb : Ring) × (b : Block) × IsValid rb
    × (contents rb ≡ [])
    × (bytes b 0 4 ≡ frame 252 (5 ∷ []))
    × (recv_round counting 1 server
        ≡ resume (λ _ s'. ok (true, s')) (counting.packet_proc 1 252 (handed_over server 1 rb b 4)))
unfolding get_use_size
recv_round_whole_example =
    recv_round_whole counting server 1 (λ h. omega arith) ring-IsValid 252 (5 ∷ []) [] refl
      (omega arith) (omega arith)

-- A session that has received only the first two bytes, or three of the four, or other bytes.
abbrev with_recv_rb : Ring → Server
with_recv_rb rb = record server { sessions = λ _. record session { recv_rb = rb } }

recv_round_bad_code_example :
    recv_round counting 1 (with_recv_rb (record ring { out_pos = 0 })) ≡ err debug_break
unfolding get_use_size
recv_round_bad_code_example =
    recv_round_bad_code counting (with_recv_rb (record ring { out_pos = 0 })) 1 (λ h. omega arith)
      (omega arith) 1 252 5 [] refl (λ h. omega arith)
