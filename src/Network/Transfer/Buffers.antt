-- ===== src/Network/Transfer/Buffers.antt =====
-- The buffers that `SendProc` and `RecvProc` hand to Winsock: together they are the bytes that wait in
-- a ring, and the room behind them.
use mmotcpfighter.Base.{
  ℕ, ◌+◌, ◌-◌, ◌%◌, ◌≤◌, ◌<◌, ◌≡◌, refl, ap, ap₂, sym, ◌∙◌, Bool, false, ◌&&◌, ◌||◌, List, [], ◌∷◌,
  ◌++◌, append-nil, ltb, leb, take, tabulate, tabulate_ext, tabulate_add, length-tabulate,
  take_of_append, arith, Bool-cases, inl, inr, leb→le,
}
use mmotcpfighter.Memory.{Block, bytes}
use mmotcpfighter.Ring.{
  Ring, actual_size, get_use_size, get_free_size, direct_dequeue_size, direct_enqueue_size,
  move_in_pos,
}
use mmotcpfighter.Ring.Valid.{IsValid, contents, arc}
use mmotcpfighter.Ring.Transfer.{
  send_fits, send_wraps, recv_fits, recv_wraps, outside_one, outside_two, move_in_pos-eq,
  received_ring-IsValid, contents-received_ring,
}
use mmotcpfighter.Network.Transfer.{Segment, send_buffers, recv_buffers}

-- The bytes of some segments, one after the other.
unfoldable pub segment_bytes : Block → List Segment → List ℕ
segment_bytes b [] = []
segment_bytes b ((p, n) ∷ segments) = bytes b p n ++ segment_bytes b segments

unfoldable pub total_size : List Segment → ℕ
total_size [] = 0
total_size ((p, n) ∷ segments) = n + total_size segments

unfoldable pub is_in_segments : ℕ → List Segment → Bool
is_in_segments i [] = false
is_in_segments i ((p, n) ∷ segments) = (leb p i && ltb i (p + n)) || is_in_segments i segments

-- A stretch of the circle that does not go round its end, and one that does.
arc_one : (b : Block) (p n : ℕ) → p + n ≤ actual_size → bytes b p n ≡ arc b p n
arc_one b p n h = tabulate_ext n _ _ (λ k lt. ap b.byte (omega arith))

arc_two :
    (b : Block) (p d n : ℕ)
    → p + d ≡ actual_size
    → n ≤ actual_size
    → bytes b p d ++ bytes b 0 n ≡ arc b p (d + n)
arc_two b p d n e h = rw (tabulate_add d n (λ k. b.byte ((p + k) % actual_size))) (
    ap₂ ◌++◌ (tabulate_ext d _ _ (λ k lt. ap b.byte (omega arith)))
      (tabulate_ext n _ _ (λ k lt. ap b.byte (omega arith))))

segments_one :
    (b : Block) (p n : ℕ) → p + n ≤ actual_size → segment_bytes b ((p, n) ∷ []) ≡ arc b p n
unfolding segment_bytes
segments_one b p n h = append-nil _ ∙ arc_one b p n h

segments_two :
    (b : Block) (p d n m : ℕ)
    → p + d ≡ actual_size
    → n ≤ actual_size
    → d + n ≡ m
    → segment_bytes b ((p, d) ∷ (0, n) ∷ []) ≡ arc b p m
unfolding segment_bytes
segments_two b p d n m e h s =
    rw (← s) (ap (λ ys. bytes b p d ++ ys) (append-nil _) ∙ arc_two b p d n e h)

-- What `SendProc` offers to `WSASend` are the bytes that wait in the ring, in order.
pub segment_bytes-send_buffers :
    {r : Ring} → IsValid r → segment_bytes r.buffer (send_buffers r) ≡ contents r
unfolding send_buffers
segment_bytes-send_buffers {r} v =
    elim (Bool-cases (leb (get_use_size r) (direct_dequeue_size r))) [
      | inl e ↦ rw e (segments_one r.buffer r.out_pos (get_use_size r) (send_fits v (leb→le _ _ e)))
      | inr e ↦
          let (p, q, s) = send_wraps v e in
          rw e (segments_two r.buffer r.out_pos (direct_dequeue_size r) _ _ p q s)
    ]

pub segment_bytes-recv_buffers :
    {r : Ring} (b : Block)
    → IsValid r
    → segment_bytes b (recv_buffers r) ≡ arc b r.in_pos (get_free_size r)
unfolding recv_buffers
segment_bytes-recv_buffers {r} b v =
    elim (Bool-cases (leb (get_free_size r) (direct_enqueue_size r))) [
      | inl e ↦ rw e (segments_one b r.in_pos (get_free_size r) (recv_fits v (leb→le _ _ e)))
      | inr e ↦
          let (p, q, s) = recv_wraps v e in
          rw e (segments_two b r.in_pos (direct_enqueue_size r) _ _ p q s)
    ]

total_size-recv_buffers : {r : Ring} → IsValid r → total_size (recv_buffers r) ≡ get_free_size r
unfolding recv_buffers total_size
total_size-recv_buffers {r} v = elim (Bool-cases (leb (get_free_size r) (direct_enqueue_size r))) [
  | inl e ↦ rw e (omega arith)
  | inr e ↦ let (p, q, s) = recv_wraps v e in rw e (omega arith)
]

pub total_size-send_buffers : {r : Ring} → IsValid r → total_size (send_buffers r) ≡ get_use_size r
unfolding send_buffers total_size
total_size-send_buffers {r} v = elim (Bool-cases (leb (get_use_size r) (direct_dequeue_size r))) [
  | inl e ↦ rw e (omega arith)
  | inr e ↦ let (p, q, s) = send_wraps v e in rw e (omega arith)
]

-- The bytes that wait are not in the room that `RecvProc` offers.
waiting_outside :
    {r : Ring} (k : ℕ)
    → IsValid r
    → k < get_use_size r
    → is_in_segments ((r.out_pos + k) % actual_size) (recv_buffers r) ≡ false
unfolding recv_buffers is_in_segments
waiting_outside {r} k v lt = elim (Bool-cases (leb (get_free_size r) (direct_enqueue_size r))) [
  | inl e ↦ rw (e, outside_one k v lt e) refl
  | inr e ↦ let (p, q) = outside_two k v lt e in rw (e, p, q) refl
]

-- What is documented of `WSARecv` where it answers `n`: the block is as large as before, only bytes of
-- the segments have changed, and there are no more than the segments have room for.
pub record Receives (b : Block) (segments : List Segment) (n : ℕ) (b' : Block) : Type 0 where
  pub same_size : b'.size ≡ b.size
  pub same : (i : ℕ) → is_in_segments i segments ≡ false → b'.byte i ≡ b.byte i
  pub at_most : n ≤ total_size segments

waiting_kept :
    {r : Ring} {n : ℕ} {b : Block}
    → IsValid r
    → Receives r.buffer (recv_buffers r) n b
    → (k : ℕ) → k < get_use_size r
    → b.byte ((r.out_pos + k) % actual_size) ≡ r.buffer.byte ((r.out_pos + k) % actual_size)
waiting_kept v w k lt = w.same _ (waiting_outside k v lt)

take-tabulate : {A : Type 0} (n m : ℕ) (f : ℕ → A) → n ≤ m → take n (tabulate m f) ≡ tabulate n f
take-tabulate n m f h =
    let e : m ≡ n + (m - n) = omega arith in
    rw (e, tabulate_add n (m - n) f) (take_of_append n _ _ (length-tabulate n f))

-- After `WSARecv` has filled the segments that `RecvProc` offers and `MoveInPos` has gone past the `n`
-- bytes received, the ring is valid and holds what it held, and behind that the first `n` bytes of the
-- segments.
pub move_in_pos_received :
    {r : Ring} (n : ℕ) (b : Block)
    → IsValid r
    → Receives r.buffer (recv_buffers r) n b
    → IsValid (move_in_pos (record r { buffer = b }) n).1
      × (contents (move_in_pos (record r { buffer = b }) n).1
          ≡ contents r ++ take n (segment_bytes b (recv_buffers r)))
move_in_pos_received {r} n b v w =
    let room : n ≤ get_free_size r = omega (arith, total_size-recv_buffers v, w.at_most) in
    let kept = waiting_kept v w in
    let size = w.same_size ∙ v.whole in
    rw (move_in_pos-eq b n v room size kept) (
      received_ring-IsValid b n v room size kept,
      contents-received_ring b n v room size kept
          ∙ ap (λ ys. contents r ++ ys)
              (sym (ap (take n) (segment_bytes-recv_buffers b v) ∙ take-tabulate n _ _ room)),
    )
