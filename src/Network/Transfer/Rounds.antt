-- ===== src/Network/Transfer/Rounds.antt =====
-- The loop of `RecvProc` comes to an end.
use mmotcpfighter.Base.{
  ℕ, zero, suc, ◌+◌, ◌≤◌, ◌<◌, ◌≡◌, ◌≢◌, refl, ap, sym, ◌∙◌, Bool, true, false, List, [], ◌∷◌, ◌==◌,
  length, drop, ne→not_==, ==_refl, ltb, ltb→lt, Bool-cases, inl, inr, arith, Outcome, ok, err,
  Fault, debug_break, out_of_bounds, out_of_fuel,
}
use mmotcpfighter.Memory.{Block}
use mmotcpfighter.Ring.{Ring, buffer_size, move_in_pos, get_use_size, dequeue}
use mmotcpfighter.Ring.Valid.{IsValid, contents, length-contents, use-add-free}
use mmotcpfighter.Ring.Refine.{dequeue_refines, dequeue_short}
use mmotcpfighter.Ring.Transfer.{dequeue_small}
use mmotcpfighter.LinkedList.{Ptr, null}
use mmotcpfighter.World.{Server, invalid}
use mmotcpfighter.World.Monad.{resume, set_at, load_session, store_session}
use mmotcpfighter.Packets.{packet_code}
use mmotcpfighter.Network.Callbacks.{Callbacks}
use mmotcpfighter.World.Session.{reserve_session_disconnected, push_discon}
use mmotcpfighter.Network.Transfer.{
  header_size, recv_round, recv_loop, take_packet, WsaRecv, RecvResult, received, recv_failed,
  would_block, conn_reset, other_error, recv_buffers, after_recv, recv_proc, on_error,
}
use mmotcpfighter.Network.Transfer.Buffers.{Receives, move_in_pos_received}
use mmotcpfighter.Network.Transfer.Receive.{
  handed_over, recv_round_short, recv_round_bad_code, recv_round_too_big, recv_round-take_packet,
  granted_all, Queue-drop,
}

-- What the loop needs of `PacketProc`: it does not report `out_of_fuel`, and it leaves the
-- receiving ring of the session alone.
pub record LeavesRing (cb : Callbacks) (p : Ptr) : Type 0 where
  pub settles : (s : Server) (c : Ptr) (t : ℕ) → cb.packet_proc c t s ≢ err out_of_fuel
  pub keeps :
      (s : Server) (c : Ptr) (t : ℕ) (b : Bool) (s' : Server)
      → cb.packet_proc c t s ≡ ok (b, s')
      → (s'.sessions p).recv_rb ≡ (s.sessions p).recv_rb

-- How `Dequeue` ends, whatever the target: it faults, refuses, or takes all `n` bytes.
pub data Taken (r : Ring) (dest : Block) (n : ℕ) : Type 0 where
  too_small : dequeue r dest n ≡ err out_of_bounds → Taken r dest n
  refused : dequeue r dest n ≡ ok (0, r, dest) → Taken r dest n
  taken :
      (r' : Ring) (d : Block)
      → dequeue r dest n ≡ ok (n, r', d)
      → IsValid r'
      → get_use_size r' + n ≡ get_use_size r
      → Taken r dest n

length-drop :
    {A : Type 0} (n : ℕ) (xs : List A) → n ≤ length xs → length (drop n xs) + n ≡ length xs
length-drop zero xs h = omega arith
length-drop (suc n) [] h = absurd (omega arith)
length-drop (suc n) (x ∷ xs) h = let e = length-drop n xs (omega arith) in omega arith

-- The ends of a round.
pub data Round (p : Ptr) (s : Server) (o : Outcome (Bool × Server)) : Type 0 where
  faults : (f : Fault) → f ≢ out_of_fuel → o ≡ err f → Round p s o
  ends : (s' : Server) → o ≡ ok (false, s') → Round p s o
  goes_on :
      (s' : Server)
      → o ≡ ok (true, s')
      → IsValid (s'.sessions p).recv_rb
      → get_use_size (s'.sessions p).recv_rb < get_use_size (s.sessions p).recv_rb
      → Round p s o

pub dequeue-Taken : {r : Ring} (dest : Block) (n : ℕ) → IsValid r → Taken r dest n
dequeue-Taken {r} dest n v = elim (Bool-cases (ltb (get_use_size r) n)) [
  | inl short ↦ refused (dequeue_short r dest n (ltb→lt _ _ short))
  | inr enough ↦ elim (Bool-cases (ltb dest.size n)) [
    | inl small ↦ too_small (dequeue_small dest n v (ground arith) (ltb→lt _ _ small))
    | inr large ↦
        let (r', d, took, valid, _, left) = dequeue_refines dest n v (ground arith) in
        let there : n ≤ length (contents r) = ground (arith, length-contents r) in
        let size = length-drop n (contents r) there in
        taken r' d (took ∙ ap (λ k. ok (k, r', d)) (granted_all _ n there)) valid (
          sym (ap (λ k. k + n) (length-contents r'))
          ∙ ap (λ xs. length xs + n) (left ∙ Queue-drop _ n there)
          ∙ size
          ∙ length-contents r)
  ]
]

module _ (cb : Callbacks) (p : Ptr) (not_null : p ≢ null) (leaves : LeavesRing cb p) (s : Server)
    (v : IsValid (s.sessions p).recv_rb) where
  -- A round whose packet is handed over goes as its handler goes.
  after_handler :
      (rb : Ring) (b : Block) (n t : ℕ) (o : Outcome (Bool × Server))
      → cb.packet_proc (s.sessions p).client t (handed_over s p rb b n) ≡ o
      → IsValid rb
      → get_use_size rb < get_use_size (s.sessions p).recv_rb
      → Round p s (resume (λ _ s'. ok (true, s')) o)
  unfolding set_at
  after_handler rb b n t (err f) e valid less =
      faults f (λ h. leaves.settles _ _ _ (e ∙ ap err h)) refl
  after_handler rb b n t (ok (c, s')) e valid less =
      let same : (s'.sessions p).recv_rb ≡ rb = leaves.keeps _ _ _ c s' e ∙ rw (==_refl p) refl in
      goes_on s' refl (rw same valid) (rw same less)

  take_packet-Round : (size t : ℕ) → Round p s (take_packet cb p (s.sessions p) size t s)
  unfolding take_packet store_session
  take_packet-Round size t =
      let some : header_size + size ≢ 0 = λ h. omega arith in
      elim (dequeue-Taken s.sb1.buffer (header_size + size) v) [
        | too_small e ↦ rw e (faults out_of_bounds (λ h. cc) refl)
        | refused e ↦ rw e (ends s refl)
        | taken r' d e valid less ↦
            rw (e, ne→not_== _ _ some, ne→not_== _ _ not_null)
              (after_handler r' d (header_size + size) t _ refl valid (omega arith))
      ]

  -- By what waits in the ring.
  pub header_cases :
      (q : List ℕ) → contents (s.sessions p).recv_rb ≡ q → Round p s (recv_round cb p s)
  header_cases [] e = ends s (recv_round_short cb s p not_null v (rw e (omega arith)))
  header_cases (c ∷ []) e = ends s (recv_round_short cb s p not_null v (rw e (omega arith)))
  header_cases (c ∷ z ∷ []) e = ends s (recv_round_short cb s p not_null v (rw e (omega arith)))
  header_cases (c ∷ z ∷ t ∷ tail) e = elim (Bool-cases (c == packet_code)) [
    | inl good ↦ elim (Bool-cases (ltb s.sb1.buffer_size z)) [
      | inl big ↦
          faults debug_break (λ h. cc)
            (recv_round_too_big cb s p not_null v z t tail
              (e ∙ ap (λ k. k ∷ z ∷ t ∷ tail) (ground arith)) (ltb→lt _ _ big))
      | inr small ↦
          let code : c ≡ packet_code = ground arith in
          rw
            (recv_round-take_packet cb s p not_null v z t tail (e ∙ ap (λ k. k ∷ z ∷ t ∷ tail) code)
              (ground arith))
            (take_packet-Round z t)
    ]
    | inr bad ↦
        faults debug_break (λ h. cc)
          (recv_round_bad_code cb s p not_null v c z t tail e (ground arith))
  ]

-- The loop of `RecvProc` on a valid ring ends, whatever has been received: it does not run out of fuel
-- where it is given more than the ring holds bytes.
pub recv_loop_ends :
    (fuel : ℕ) (cb : Callbacks) (p : Ptr) (s : Server)
    → p ≢ null
    → LeavesRing cb p
    → IsValid (s.sessions p).recv_rb
    → get_use_size (s.sessions p).recv_rb < fuel
    → recv_loop fuel cb p s ≢ err out_of_fuel
unfolding recv_loop
recv_loop_ends zero cb p s not_null leaves v less = absurd (omega arith)
recv_loop_ends (suc fuel) cb p s not_null leaves v less =
    elim (header_cases cb p not_null leaves s v _ refl) [
      | faults f other e ↦ rw e (λ h. other (cc))
      | ends s' e ↦ rw e (λ h. cc)
      | goes_on s' e valid fewer ↦
          rw e (recv_loop_ends fuel cb p s' not_null leaves valid (omega arith))
    ]

reserve_ends :
    (p : Ptr) (s : Server) (f : Fault) → reserve_session_disconnected p s ≡ err f → f ≢ out_of_fuel
unfolding reserve_session_disconnected push_discon store_session
reserve_ends p s f e = ground arith

then_done :
    (o : Outcome (Unit {0} × Server))
    → ((f : Fault) → o ≡ err f → f ≢ out_of_fuel)
    → resume (λ _ s'. ok (false, s')) o ≢ err out_of_fuel
then_done (err f) h = λ e. h f refl (cc)
then_done (ok (u, s')) h = λ e. cc

-- `RecvProc` on a session.
module _ (fuel : ℕ) (cb : Callbacks) (now : ℕ) (wsa_recv : WsaRecv) (p : Ptr) (s : Server)
    (not_null : p ≢ null) (leaves : LeavesRing cb p) (v : IsValid (s.sessions p).recv_rb)
    (enough : buffer_size < fuel) where
  loop_ends :
      (t : Server) (n : ℕ) (b : Block)
      → Receives (s.sessions p).recv_rb.buffer (recv_buffers (s.sessions p).recv_rb) n b
      → (t.sessions p).recv_rb ≡ (move_in_pos (record (s.sessions p).recv_rb { buffer = b }) n).1
      → recv_loop fuel cb p t ≢ err out_of_fuel
  loop_ends t n b w e =
      let (valid, _) = move_in_pos_received n b v w in
      recv_loop_ends fuel cb p t not_null leaves (rw e valid)
        (rw e (omega (arith, use-add-free valid)))

  after_recv_ends :
      (t : Server) (result : RecvResult)
      → ((n : ℕ) (b : Block)
          → result ≡ received n b
          → Receives (s.sessions p).recv_rb.buffer (recv_buffers (s.sessions p).recv_rb) n b)
      → after_recv fuel cb p (s.sessions p) result t ≢ err out_of_fuel
  unfolding after_recv on_error store_session set_at
  after_recv_ends t (recv_failed would_block) h = λ e. cc
  after_recv_ends t (recv_failed conn_reset) h = then_done _ (reserve_ends p t)
  after_recv_ends t (recv_failed other_error) h = then_done _ (reserve_ends p t)
  after_recv_ends t (received n b) h = elim (Bool-cases (n == 0)) [
    | inl none ↦ rw none (then_done _ (reserve_ends p t))
    | inr some ↦
        rw (some, ne→not_== _ _ not_null) (loop_ends _ n b (h n b refl) (rw (==_refl p) refl))
  ]

  -- `RecvProc` on a session whose receiving ring is valid ends, whatever is received, where `WSARecv`
  -- keeps to its segments and `PacketProc` leaves the ring alone: fuel above `BUFFER_SIZE` is enough.
  pub recv_proc_ends :
      ((n : ℕ) (b : Block)
        → wsa_recv (s.sessions p).recv_rb.buffer (recv_buffers (s.sessions p).recv_rb)
          ≡ received n b
        → Receives (s.sessions p).recv_rb.buffer (recv_buffers (s.sessions p).recv_rb) n b)
      → recv_proc fuel cb now wsa_recv p s ≢ err out_of_fuel
  unfolding recv_proc load_session store_session
  recv_proc_ends h = elim (Bool-cases ((s.sessions p).is_valid == invalid)) [
    | inl i ↦ rw (ne→not_== _ _ not_null, i) (λ e. cc)
    | inr i ↦ rw (ne→not_== _ _ not_null, i, ne→not_== _ _ not_null) (after_recv_ends _ _ h)
  ]
