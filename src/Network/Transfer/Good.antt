-- ===== src/Network/Transfer/Good.antt =====
-- `RecvProc` and `SendProc` keep the invariant of the server.
use mmotcpfighter.Base.{
  ℕ, zero, suc, ◌+◌, ◌<◌, ◌≡◌, ◌≢◌, refl, ap, sym, subst, true, false, List, ◌==◌, ltb, ne→not_==,
  Bool-cases, inl, inr, Outcome, ok, err, arith,
}
use mmotcpfighter.Memory.{Block, new_block}
use mmotcpfighter.Ring.{Ring, buffer_size, get_use_size, peek, move_in_pos, move_out_pos}
use mmotcpfighter.Ring.Valid.{IsValid, use-add-free}
use mmotcpfighter.Ring.Settles.{peek-Settles, move_out_pos-Settles}
use mmotcpfighter.Packets.{packet_code}
use mmotcpfighter.LinkedList.{Ptr, null}
use mmotcpfighter.World.{Server, SessionData, invalid}
use mmotcpfighter.World.Monad.{resume, load_session, store_session}
use mmotcpfighter.World.Frame.{Placed, Keeps-rest}
use mmotcpfighter.World.Session.{reserve_session_disconnected}
use mmotcpfighter.World.Session.Frames.{set_at_self}
use mmotcpfighter.World.Session.Reserve.{reserve-Ends, known_at}
use mmotcpfighter.Network.Callbacks.{Callbacks}
use mmotcpfighter.Network.Transfer.{
  header_size, take_packet, recv_round, recv_loop, after_recv, recv_proc, after_send, send_proc,
  on_error, WsaRecv, RecvResult, received, recv_failed, SendResult, sent, send_failed, ErrorCode,
  would_block, conn_reset, other_error, recv_buffers, Segment,
}
use mmotcpfighter.Network.Transfer.Buffers.{Receives, move_in_pos_received}
use mmotcpfighter.Network.Transfer.Receive.{handed_over}
use mmotcpfighter.Network.Transfer.Rounds.{
  header_cases, faults, ends, goes_on, too_small, refused, taken, dequeue-Taken,
}
use mmotcpfighter.Network.Loop.Frame.{KeepsFrame, KeepsFrame-LeavesRing}
use mmotcpfighter.Network.Loop.Good.{
  IsGood, Grows, Keeps-IsGood, changed, changed-IsGood, changed-Grows, Stays, breaks, stays,
  Stays-refl, Stays-trans, Ends-Stays, Stays-resume, Stays-lift,
}

-- A valid session is reserved for removal.
reserve-Stays :
    (p : Ptr) (s : Server)
    → IsGood s
    → Placed s.session_num s p
    → (s.sessions p).is_valid ≢ invalid
    → Stays s (reserve_session_disconnected p s)
reserve-Stays p s g (i, lt, e) valid =
    Ends-Stays _ g (reserve-Ends s p valid (known_at s p i (sym e) valid))

module _ (cb : Callbacks) (keeps : KeepsFrame cb) (p : Ptr) (not_null : p ≢ null) (s : Server)
    (g : IsGood s) (there : Placed s.session_num s p) where
  ring : IsValid (s.sessions p).recv_rb
  ring = g.rings p there

  handed_over-IsGood :
      (rb : Ring) (b : Block) (n : ℕ) → IsValid rb → IsGood (handed_over s p rb b n)
  handed_over-IsGood rb b n v =
      Keeps-IsGood
        (Keeps-rest (changed s p (record (s.sessions p) { recv_rb = rb }) g refl refl refl v) _ refl
          refl refl refl refl)
        (changed-IsGood s p (record (s.sessions p) { recv_rb = rb }) g refl refl refl v)

  take_packet-Stays : (size t : ℕ) → Stays s (take_packet cb p (s.sessions p) size t s)
  unfolding take_packet store_session
  take_packet-Stays size t = elim (dequeue-Taken s.sb1.buffer (header_size + size) ring) [
    | too_small e ↦ rw e (breaks (λ h. cc))
    | refused e ↦ rw e (Stays-refl false g)
    | taken r' d e valid less ↦
        let some : header_size + size ≢ 0 = λ h. omega arith in
        let t' : Server = handed_over s p r' d (header_size + size) in
        let gt : IsGood t' = handed_over-IsGood r' d (header_size + size) valid in
        rw (e, ne→not_== _ _ some, ne→not_== _ _ not_null)
          (Stays-trans _
            (changed-Grows s p (record (s.sessions p) { recv_rb = r' }) g refl refl refl valid)
            (Stays-resume t' _ _ (Ends-Stays _ gt ((keeps.handles (s.sessions p).client t).at t'))
              (λ a u e' gu grows. Stays-refl true gu)))
  ]

  recv_round-Stays : Stays s (recv_round cb p s)
  unfolding recv_round load_session
  recv_round-Stays = rw (ne→not_== _ _ not_null) (
      Stays-lift s _ (peek (s.sessions p).recv_rb (new_block header_size) header_size)
        (peek-Settles _ _ _)
        (λ r e. elim (Bool-cases (r.0 == 0)) [
          | inl none ↦ rw none (Stays-refl false g)
          | inr some ↦ elim (Bool-cases (r.1.byte 0 == packet_code)) [
            | inr bad ↦ rw (some, bad) (breaks (λ h. cc))
            | inl code ↦ elim (Bool-cases (ltb s.sb1.buffer_size (r.1.byte 1))) [
              | inl big ↦ rw (some, code, big) (breaks (λ h. cc))
              | inr fits ↦ rw (some, code, fits) (take_packet-Stays (r.1.byte 1) (r.1.byte 2))
            ]
          ]
        ]))

-- What a loop that ends so does where it returns.
Stays-returns :
    {A : Type 0} {s : Server} (o : Outcome (A × Server)) {a : A} {t : Server}
    → Stays s o
    → o ≡ ok (a, t)
    → IsGood t × Grows s t
Stays-returns (err f) (breaks h) e = absurd (ground arith)
Stays-returns {s = s} (ok (a, t)) {t = u} (stays g grows) e =
    let same : t ≡ u = ground arith in subst (λ v. IsGood v × Grows s v) same (g, grows)

recv_loop-Stays :
    (fuel : ℕ) (cb : Callbacks) (p : Ptr) (s : Server)
    → KeepsFrame cb
    → p ≢ null
    → IsGood s
    → Placed s.session_num s p
    → get_use_size (s.sessions p).recv_rb < fuel
    → Stays s (recv_loop fuel cb p s)
unfolding recv_loop
recv_loop-Stays zero cb p s keeps not_null g there less = absurd (omega arith)
recv_loop-Stays (suc fuel) cb p s keeps not_null g there less =
    let round = recv_round-Stays cb keeps p not_null s g there in
    elim (header_cases cb p not_null (KeepsFrame-LeavesRing cb keeps p) s (g.rings p there) _
      refl) [
        | faults f other e ↦ rw e (breaks other)
        | ends s' e ↦ let (g', grows) = Stays-returns _ round e in rw e (stays g' grows)
        | goes_on s' e valid fewer ↦
            let (g', grows) = Stays-returns _ round e in
            rw e (
              Stays-trans (recv_loop fuel cb p s') grows
                (recv_loop-Stays fuel cb p s' keeps not_null g' (grows p there).0 (omega arith)))
      ]

-- What Winsock promises of `WSARecv`: it fills the segments from their start, and leaves the rest of the ring's
-- buffer as it is.
pub record KeepsToSegments (wsa_recv : WsaRecv) : Type 0 where
  pub apply :
      (r : Ring) (n : ℕ) (b : Block)
      → IsValid r
      → wsa_recv r.buffer (recv_buffers r) ≡ received n b
      → Receives r.buffer (recv_buffers r) n b

on_error-Stays :
    (p : Ptr) (s : Server) (code : ErrorCode)
    → IsGood s
    → Placed s.session_num s p
    → (s.sessions p).is_valid ≢ invalid
    → Stays s (on_error p code s)
unfolding on_error
on_error-Stays p s would_block g there valid = Stays-refl tt g
on_error-Stays p s conn_reset g there valid = reserve-Stays p s g there valid
on_error-Stays p s other_error g there valid = reserve-Stays p s g there valid

then_false :
    {s : Server} (o : Outcome (Unit {0} × Server))
    → Stays s o
    → Stays s (resume (λ _ t. ok (false, t)) o)
then_false (err f) (breaks h) = breaks h
then_false (ok (u, t)) (stays g grows) = stays g grows

module _ (fuel : ℕ) (cb : Callbacks) (keeps : KeepsFrame cb) (enough : buffer_size < fuel) (p : Ptr)
    (not_null : p ≢ null) where
  -- After `WSARecv`, in a state in which the ring of the session is still the one that it was called with.
  after_recv-Stays :
      (s : Server) (sd : SessionData) (result : RecvResult)
      → IsGood s
      → Placed s.session_num s p
      → (s.sessions p).is_valid ≢ invalid
      → IsValid sd.recv_rb
      → ((n : ℕ) (b : Block)
          → result ≡ received n b
          → Receives sd.recv_rb.buffer (recv_buffers sd.recv_rb) n b)
      → Stays s (after_recv fuel cb p sd result s)
  unfolding after_recv store_session
  after_recv-Stays s sd (recv_failed code) g there valid v h =
      then_false _ (on_error-Stays p s code g there valid)
  after_recv-Stays s sd (received n b) g there valid v h = elim (Bool-cases (n == 0)) [
    | inl none ↦ rw none (then_false _ (reserve-Stays p s g there valid))
    | inr some ↦
        let rb : Ring = (move_in_pos (record sd.recv_rb { buffer = b }) n).1 in
        let (whole, _) = move_in_pos_received n b v (h n b refl) in
        let sd' : SessionData = record (s.sessions p) { recv_rb = rb } in
        let u : Server = changed s p sd' g refl refl refl whole in
        let same : (u.sessions p).recv_rb ≡ rb =
          ap (λ (x : SessionData). x.recv_rb) (set_at_self s.sessions p sd') in
        rw (some, ne→not_== _ _ not_null)
          (Stays-trans (recv_loop fuel cb p u) (changed-Grows s p sd' g refl refl refl whole) (
            recv_loop-Stays fuel cb p u keeps not_null
              (changed-IsGood s p sd' g refl refl refl whole) there
              (rw same (omega (arith, use-add-free whole)))))
  ]

  pub recv_proc-Stays :
      (now : ℕ) (wsa_recv : WsaRecv) (s : Server)
      → KeepsToSegments wsa_recv
      → IsGood s
      → Placed s.session_num s p
      → Stays s (recv_proc fuel cb now wsa_recv p s)
  unfolding recv_proc load_session store_session
  recv_proc-Stays now wsa_recv s promise g there =
      elim (Bool-cases ((s.sessions p).is_valid == invalid)) [
        | inl i ↦ rw (ne→not_== _ _ not_null, i) (Stays-refl false g)
        | inr i ↦
            let sd : SessionData = record (s.sessions p) { last_recv_time = now } in
            let v = g.rings p there in
            let u : Server = changed s p sd g refl refl refl v in
            let still : (u.sessions p).is_valid ≡ (s.sessions p).is_valid =
              ap (λ (x : SessionData). x.is_valid) (set_at_self s.sessions p sd) in
            rw (ne→not_== _ _ not_null, i, ne→not_== _ _ not_null)
              (Stays-trans _ (changed-Grows s p sd g refl refl refl v) (
                after_recv-Stays u (s.sessions p) _ (changed-IsGood s p sd g refl refl refl v) there
                  (rw still (λ e. ground arith)) v
                  (λ n b e. promise.apply (s.sessions p).recv_rb n b v e)))
      ]

  after_send-Stays :
      (s : Server) (result : SendResult)
      → IsGood s
      → Placed s.session_num s p
      → (s.sessions p).is_valid ≢ invalid
      → Stays s (after_send p (s.sessions p) result s)
  unfolding after_send store_session
  after_send-Stays s (send_failed code) g there valid = on_error-Stays p s code g there valid
  after_send-Stays s (sent n) g there valid =
      Stays-lift s _ (move_out_pos (s.sessions p).send_rb n) (move_out_pos-Settles _ n) (λ r e.
        rw (ne→not_== _ _ not_null) (
          stays
            (changed-IsGood s p (record (s.sessions p) { send_rb = r.1 }) g refl refl refl
              (g.rings p there))
            (changed-Grows s p (record (s.sessions p) { send_rb = r.1 }) g refl refl refl
              (g.rings p there))))

  pub send_proc-Stays :
      (wsa_send : List Segment → SendResult) (s : Server)
      → IsGood s
      → Placed s.session_num s p
      → Stays s (send_proc wsa_send p s)
  unfolding send_proc load_session
  send_proc-Stays wsa_send s g there = elim (Bool-cases ((s.sessions p).is_valid == invalid)) [
    | inl i ↦ rw (ne→not_== _ _ not_null, i) (Stays-refl tt g)
    | inr i ↦ elim (Bool-cases (get_use_size (s.sessions p).send_rb == 0)) [
      | inl empty ↦ rw (ne→not_== _ _ not_null, i, empty) (Stays-refl tt g)
      | inr waiting ↦
          rw (ne→not_== _ _ not_null, i, waiting) (after_send-Stays s _ g there (λ e. ground arith))
    ]
  ]
