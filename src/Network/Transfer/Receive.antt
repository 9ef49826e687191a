-- ===== src/Network/Transfer/Receive.antt =====
-- One round of the loop of `RecvProc`: how the packets are told apart in what has been received.
use mmotcpfighter.Base.{
  ℕ, ◌+◌, ◌≤◌, ◌<◌, ◌≡◌, ◌≢◌, refl, ap, sym, ◌∙◌, true, false, List, [], ◌∷◌, ◌++◌, length,
  length-append, get_or, take, drop, take_of_append, drop_of_append, ne→not_==, le→not_ltb, lt→ltb,
  arith, ok, err, debug_break,
}
use mmotcpfighter.Memory.{Block, new_block, bytes}
use mmotcpfighter.Ring.{Ring, peek}
use mmotcpfighter.Ring.Valid.{IsValid, contents}
use mmotcpfighter.Ring.Queue
use mmotcpfighter.Ring.Refine.{Handed, peek_refines, dequeue_refines}
use mmotcpfighter.Serial.{move_write_pos, move_read_pos}
use mmotcpfighter.Packets.{packet_code}
use mmotcpfighter.LinkedList.{Ptr, null}
use mmotcpfighter.World.{Server}
use mmotcpfighter.World.Monad.{resume, set_at, load_session, store_session}
use mmotcpfighter.Network.Callbacks.{Callbacks}
use mmotcpfighter.Network.Transfer.{header_size, recv_round, take_packet}

-- A packet as it is sent: the code, the size of the payload, the type, the payload.
abbrev pub frame : ℕ → List ℕ → List ℕ
frame type payload = packet_code ∷ length payload ∷ type ∷ payload

-- The state in which a packet's handler starts: the ring without the packet, and the packet in the
-- first buffer, which is read behind the header.
abbrev pub handed_over : Server → Ptr → Ring → Block → ℕ → Server
handed_over s p rb b n = record s {
  sessions = set_at s.sessions p (record (s.sessions p) { recv_rb = rb });
  sb1 = move_read_pos header_size (move_write_pos n (record s.sb1 { buffer = b }));
}

pub granted_all : (q : List ℕ) (n : ℕ) → n ≤ length q → Queue.granted q n ≡ n
unfolding Queue.granted
granted_all q n h = ground arith

pub granted_none : (q : List ℕ) (n : ℕ) → length q < n → Queue.granted q n ≡ 0
unfolding Queue.granted
granted_none q n h = ground arith

Handed-take :
    {q : List ℕ} {n : ℕ} {dest d : Block}
    → n ≤ length q
    → Handed q n dest d
    → bytes d 0 n ≡ take n q
unfolding Queue.front
Handed-take {q} {n} {dest} {d} h handed =
    let g = granted_all q n h in
    let front : bytes d 0 (Queue.granted q n) ≡ take (Queue.granted q n) q = handed.front in
    sym (ap (λ k. bytes d 0 k) g) ∙ front ∙ ap (λ k. take k q) g

-- What `Peek` finds of a header.
pub peeked :
    {r : Ring} (c z t : ℕ) (tail : List ℕ)
    → IsValid r
    → contents r ≡ c ∷ z ∷ t ∷ tail
    → (d : Block) × (peek r (new_block 3) 3 ≡ ok (3, d)) × (bytes d 0 3 ≡ c ∷ z ∷ t ∷ [])
peeked {r} c z t tail v e =
    let (d, took, handed) = peek_refines (new_block 3) 3 v (omega arith) in
    let h : 3 ≤ length (contents r) = rw e (omega arith) in
    (
      d,
      took ∙ ap (λ k. ok (k, d)) (granted_all (contents r) 3 h),
      Handed-take h handed ∙ ap (take 3) e,
    )

module _ (cb : Callbacks) (s : Server) (p : Ptr) (not_null : p ≢ null)
    (v : IsValid (s.sessions p).recv_rb) where
  -- Fewer bytes than a header has: the loop ends, and nothing has changed.
  pub recv_round_short :
      length (contents (s.sessions p).recv_rb) < header_size → recv_round cb p s ≡ ok (false, s)
  unfolding recv_round load_session
  recv_round_short h =
      let (d, took, _) = peek_refines (new_block 3) 3 v (omega arith) in
      rw (ne→not_== _ _ not_null, took, granted_none _ _ h) refl

  -- A header with another code than the protocol's stops the process.
  pub recv_round_bad_code :
      (c z t : ℕ) (tail : List ℕ)
      → contents (s.sessions p).recv_rb ≡ c ∷ z ∷ t ∷ tail
      → c ≢ packet_code
      → recv_round cb p s ≡ err debug_break
  unfolding recv_round load_session
  recv_round_bad_code c z t tail e other =
      let (d, took, front) = peeked c z t tail v e in
      let code : d.byte 0 ≡ c = ap (λ xs. get_or xs 0 0) front in
      rw (ne→not_== _ _ not_null, took, code, ne→not_== _ _ other) refl

  -- So does one that announces more than the first buffer is large.
  pub recv_round_too_big :
      (z t : ℕ) (tail : List ℕ)
      → contents (s.sessions p).recv_rb ≡ packet_code ∷ z ∷ t ∷ tail
      → s.sb1.buffer_size < z
      → recv_round cb p s ≡ err debug_break
  unfolding recv_round load_session
  recv_round_too_big z t tail e big =
      let (d, took, front) = peeked packet_code z t tail v e in
      let code : d.byte 0 ≡ packet_code = ap (λ xs. get_or xs 0 0) front in
      let size : d.byte 1 ≡ z = ap (λ xs. get_or xs 1 0) front in
      rw (ne→not_== _ _ not_null, took, code, size, lt→ltb _ _ big) refl

  -- A header of the protocol, and whatever follows it.
  module _ (z t : ℕ) (tail : List ℕ)
      (e : contents (s.sessions p).recv_rb ≡ packet_code ∷ z ∷ t ∷ tail)
      (small : z ≤ s.sb1.buffer_size) where
    pub recv_round-take_packet : recv_round cb p s ≡ take_packet cb p (s.sessions p) z t s
    unfolding recv_round load_session
    recv_round-take_packet =
        let (d, took, front) = peeked packet_code z t tail v e in
        let code : d.byte 0 ≡ packet_code = ap (λ xs. get_or xs 0 0) front in
        let size : d.byte 1 ≡ z = ap (λ xs. get_or xs 1 0) front in
        let type : d.byte 2 ≡ t = ap (λ xs. get_or xs 2 0) front in
        rw (ne→not_== _ _ not_null, took, code, size, type, le→not_ltb _ _ small) refl

    module _ (space : header_size + z ≤ s.sb1.buffer.size) where
      -- Less than the payload that the header announces: the loop ends, and nothing has changed.
      pub recv_round_incomplete : length tail < z → recv_round cb p s ≡ ok (false, s)
      unfolding take_packet
      recv_round_incomplete h =
          let (r', d, took, _, _, _) = dequeue_refines s.sb1.buffer (3 + z) v space in
          let short : length (contents (s.sessions p).recv_rb) < 3 + z = rw e (omega arith) in
          recv_round-take_packet ∙ rw (took, granted_none _ _ short) refl

pub Queue-drop : (q : List ℕ) (n : ℕ) → n ≤ length q → Queue.pop q n ≡ drop n q
unfolding Queue.pop
Queue-drop q n h = ap (λ k. drop k q) (granted_all q n h)

-- A whole packet.
module _ (cb : Callbacks) (s : Server) (p : Ptr) (not_null : p ≢ null)
    (v : IsValid (s.sessions p).recv_rb) (t : ℕ) (payload rest : List ℕ)
    (e : contents (s.sessions p).recv_rb ≡ frame t payload ++ rest)
    (small : length payload ≤ s.sb1.buffer_size)
    (space : header_size + length payload ≤ s.sb1.buffer.size) where
  -- Where a whole packet waits in the ring and fits into the first buffer, its handler is called with
  -- its type, from a state in which the buffer holds the packet and the ring is valid and holds what
  -- came behind it; where the handler returns, there is another round.
  pub recv_round_whole :
      (rb : Ring) × (b : Block) × IsValid rb
      × (contents rb ≡ rest)
      × (bytes b 0 (header_size + length payload) ≡ frame t payload)
      × (recv_round cb p s
          ≡ resume
              (λ _ s'. ok (true, s'))
              (cb.packet_proc
                (s.sessions p).client
                t
                (handed_over s p rb b (header_size + length payload))))
  unfolding take_packet store_session
  recv_round_whole =
      let n : ℕ = header_size + length payload in
      let q = contents (s.sessions p).recv_rb in
      let (rb, b, took, valid, handed, left) = dequeue_refines s.sb1.buffer n v space in
      let size : length (frame t payload) ≡ n = omega arith in
      let there : n ≤ length q = rw e (omega (arith, length-append (frame t payload) rest)) in
      let some : n ≢ 0 = λ h. omega arith in
      (
        rb,
        b,
        valid,
        left ∙ Queue-drop q n there ∙ ap (drop n) e ∙ drop_of_append n (frame t payload) rest size,
        Handed-take there handed ∙ ap (take n) e ∙ take_of_append n (frame t payload) rest size,
        recv_round-take_packet cb s p not_null v (length payload) t (payload ++ rest) e small
            ∙ rw (took, granted_all q n there, ne→not_== n 0 some, ne→not_== _ _ not_null) refl,
      )
