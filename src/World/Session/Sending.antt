-- ===== src/World/Session/Sending.antt =====
-- `EnqPacketRB`, by the frame rules.
use mmotcpfighter.Base.{
  ◌+◌, ◌%◌, ◌^◌, ℕ, ◌≡◌, ◌≢◌, refl, sym, ap, ◌∙◌, Bool, true, false, ◌==◌, if◌then◌else◌, arith,
  Outcome, ok, err, Bool-cases, inl, inr,
}
use mmotcpfighter.Memory.{Block}
use mmotcpfighter.Ring.{Ring, enqueue}
use mmotcpfighter.Ring.Settles.{enqueue-Settles}
use mmotcpfighter.LinkedList.{Ptr, null}
use mmotcpfighter.World.{Server, invalid}
use mmotcpfighter.World.Monad.{pure, ◌>>=◌, ◌>>◌, lift, load_session, store_session}
use mmotcpfighter.World.Session.{session_at, reject_full, enq_valid, enq_packet_rb}
use mmotcpfighter.World.Frame.{
  Keeps-refl, Keeps-rest, Ends, Ends-trans, Ends-resume, faults, returns, Framed, Framed-pure,
  Framed-lift, Framed-bind, Ends-bind,
}
use mmotcpfighter.World.Session.Frames.{
  Keeps-session, load_client-Framed, session_at-Framed, set_at_self,
}
use mmotcpfighter.World.Session.Reserve.{reserve-Ends, known_at}

-- `EnqPacketRB`: the session that becomes invalid was valid.
module _ (p : Ptr) (handle : ℕ) (s : Server) (at : p ≡ s.session_arr handle)
    (valid : (s.sessions p).is_valid ≢ invalid) where
  reject_full-Ends : Ends s (reject_full p s)
  unfolding reject_full
  reject_full-Ends =
      let t : Server = record s { discon_by_rb_full = (s.discon_by_rb_full + 1) % 2 ^ 32 } in
      Ends-trans _ (Keeps-rest s t refl refl refl refl refl) (
        Ends-resume _ _ (reserve-Ends t p valid (known_at t p handle at valid))
          (λ _. Framed-pure false))

  if_reject : (b : Bool) → Ends s ((if b then reject_full p else pure true) s)
  if_reject true = reject_full-Ends
  if_reject false = returns (Keeps-refl s)

lift-eq :
    {A : Type 0} (o : Outcome A) (s : Server) {a : A} {t : Server} → lift o s ≡ ok (a, t) → t ≡ s
lift-eq (ok a) s h = ground arith
lift-eq (err f) s h = cc

module _ (p : Ptr) (packet : Block) (size : ℕ) (handle : ℕ) (s : Server)
    (at : p ≡ s.session_arr handle) where
  -- After `Enqueue` the ring is stored, and the session is still valid.
  enq_stored :
      (ret : ℕ) (rb : Ring)
      → (s.sessions p).is_valid ≢ invalid
      → Ends s (
          (store_session p (λ sd. record sd { send_rb = rb })
              >> (if ret == 0 then reject_full p else pure true))
            s)
  unfolding store_session
  enq_stored ret rb valid = elim (Bool-cases (p == null)) [
    | inl e ↦ rw e (faults (λ h. cc))
    | inr e ↦ rw e (
        Ends-trans _
          (Keeps-session s p (record (s.sessions p) { send_rb = rb }) refl refl refl refl)
          (if_reject p handle _ at
            (rw (set_at_self s.sessions p (record (s.sessions p) { send_rb = rb })) valid)
            (ret == 0)))
  ]

  enq_valid-Ends :
      (s.sessions p).is_valid ≢ invalid → Ends s (enq_valid p (s.sessions p) packet size s)
  unfolding enq_valid
  enq_valid-Ends valid =
      Ends-bind s (lift (enqueue (s.sessions p).send_rb packet size)) _
        ((Framed-lift _ (enqueue-Settles _ packet size)).at s)
        (λ r t e.
          rw (lift-eq (enqueue (s.sessions p).send_rb packet size) s e) (enq_stored r.0 r.1 valid))

  enq_at : Ends s (
      (load_session p >>= λ sd.
      if sd.is_valid == invalid then pure false else enq_valid p sd packet size)
        s)
  unfolding load_session
  enq_at = elim (Bool-cases (p == null)) [
    | inl e ↦ rw e (faults (λ h. cc))
    | inr e ↦ elim (Bool-cases ((s.sessions p).is_valid == invalid)) [
      | inl off ↦ rw (e, off) (returns (Keeps-refl s))
      | inr on ↦ rw (e, on) (enq_valid-Ends (λ h. ground arith))
    ]
  ]

session_at-eq :
    (handle : ℕ) (s t : Server) (p : Ptr)
    → session_at handle s ≡ ok (p, t)
    → (t ≡ s) × (p ≡ s.session_arr handle)
unfolding session_at
session_at-eq handle s t p e = ground arith

pub enq_packet_rb-Framed :
    (client : Ptr) (packet : Block) (size : ℕ) → Framed (enq_packet_rb client packet size)
unfolding enq_packet_rb
enq_packet_rb-Framed client packet size = Framed-bind _ _ (load_client-Framed client) (λ c. record {
  at = λ s. Ends-bind s (session_at c.handle) _ ((session_at-Framed c.handle).at s) (λ p t e.
      let (same, there) = session_at-eq c.handle s t p e in
      enq_at p packet size c.handle t
        (there ∙ ap (λ (u : Server). u.session_arr c.handle) (sym same)));
})
