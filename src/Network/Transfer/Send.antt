-- ===== src/Network/Transfer/Send.antt =====
-- `SendProc` on a session.
use mmotcpfighter.Base.{
  ℕ, ◌≤◌, ◌<◌, ◌≡◌, ◌≢◌, refl, ap, ap₂, sym, ◌∙◌, List, [], ◌∷◌, ◌++◌, ◌==◌, length, take, drop,
  zero, suc, ◌⊎◌, inl, inr, false, Bool-cases, ne→not_==, lt→ltb, arith, ok,
}
use mmotcpfighter.Ring.{Ring, get_use_size}
use mmotcpfighter.Ring.Valid.{IsValid, contents}
use mmotcpfighter.Ring.Transfer.{sent_ring, move_out_pos-ok, sent_ring-IsValid, contents-sent_ring}
use mmotcpfighter.LinkedList.{Ptr, null}
use mmotcpfighter.World.{Server, invalid, max_session}
use mmotcpfighter.World.Monad.{set_at, load_session, store_session}
use mmotcpfighter.World.Session.{reserve_session_disconnected, push_discon}
use mmotcpfighter.Network.Transfer.{
  Segment, SendResult, sent, send_failed, ErrorCode, would_block, conn_reset, other_error,
  send_buffers, send_proc, after_send, on_error,
}
use mmotcpfighter.Network.Transfer.Buffers.{
  segment_bytes, total_size, total_size-send_buffers, segment_bytes-send_buffers,
}

abbrev pub with_send_rb : Server → Ptr → Ring → Server
with_send_rb s p rb = record s {
  sessions = set_at s.sessions p (record (s.sessions p) { send_rb = rb });
}

-- The session is invalid, and among those to be removed.
abbrev pub reserved : Server → Ptr → Server
reserved s p = record s {
  sessions = set_at s.sessions p (record (s.sessions p) { is_valid = invalid });
  discon = s.discon ++ (p ∷ []);
}

take-drop : {A : Type 0} (n : ℕ) (xs : List A) → xs ≡ take n xs ++ drop n xs
take-drop zero xs = refl
take-drop (suc n) [] = refl
take-drop (suc n) (x ∷ xs) = ap (λ ys. x ∷ ys) (take-drop n xs)

module _ (wsa_send : List Segment → SendResult) (s : Server) (p : Ptr) (not_null : p ≢ null) where
  send_proc-after_send :
      (s.sessions p).is_valid ≢ invalid
      → get_use_size (s.sessions p).send_rb ≢ 0
      → send_proc wsa_send p s
        ≡ after_send p (s.sessions p) (wsa_send (send_buffers (s.sessions p).send_rb)) s
  unfolding send_proc load_session
  send_proc-after_send valid some =
      rw (ne→not_== _ _ not_null, ne→not_== _ _ valid, ne→not_== _ _ some) refl

  -- Where `WSASend` takes `n` of the bytes offered, they are the oldest of the ring, `SendProc` returns
  -- without a fault, and just the others are left in the ring.
  pub send_proc_sent :
      (n : ℕ)
      → (s.sessions p).is_valid ≢ invalid
      → IsValid (s.sessions p).send_rb
      → get_use_size (s.sessions p).send_rb ≢ 0
      → wsa_send (send_buffers (s.sessions p).send_rb) ≡ sent n
      → n ≤ total_size (send_buffers (s.sessions p).send_rb)
      → (rb : Ring) × (send_proc wsa_send p s ≡ ok (tt, with_send_rb s p rb))
        × IsValid rb
        × (contents (s.sessions p).send_rb
            ≡ take n
                (segment_bytes (s.sessions p).send_rb.buffer (send_buffers (s.sessions p).send_rb))
              ++ contents rb)
  unfolding after_send store_session
  send_proc_sent n valid v some e le =
      let h : n ≤ get_use_size (s.sessions p).send_rb = omega (arith, total_size-send_buffers v) in
      (
        sent_ring n v h,
        send_proc-after_send valid some
            ∙ rw (e, move_out_pos-ok n v h, ne→not_== _ _ not_null) refl,
        sent_ring-IsValid n v h,
        take-drop n _
            ∙ ap₂ ◌++◌ (sym (ap (take n) (segment_bytes-send_buffers v)))
                (sym (contents-sent_ring n v h)),
      )

  quiet_else :
      ((s.sessions p).is_valid == invalid) ≡ false
      → wsa_send (send_buffers (s.sessions p).send_rb) ≡ send_failed would_block
      → send_proc wsa_send p s ≡ ok (tt, s)
  unfolding send_proc load_session after_send on_error
  quiet_else i e = elim (Bool-cases (get_use_size (s.sessions p).send_rb == 0)) [
    | inl u ↦ rw (ne→not_== _ _ not_null, i, u) refl
    | inr u ↦ rw (ne→not_== _ _ not_null, i, u, e) refl
  ]

  -- An invalid session, an empty ring and `WSAEWOULDBLOCK` leave everything as it is.
  pub send_proc_quiet :
      ((s.sessions p).is_valid ≡ invalid)
        ⊎ ((get_use_size (s.sessions p).send_rb ≡ 0)
            ⊎ (wsa_send (send_buffers (s.sessions p).send_rb) ≡ send_failed would_block))
      → send_proc wsa_send p s ≡ ok (tt, s)
  unfolding send_proc load_session after_send on_error
  send_proc_quiet h = elim (Bool-cases ((s.sessions p).is_valid == invalid)) [
    | inl i ↦ rw (ne→not_== _ _ not_null, i) refl
    | inr i ↦ elim h [
      | inl e ↦ rw (ne→not_== _ _ not_null, e) refl
      | inr (inl e) ↦ rw (ne→not_== _ _ not_null, i, e) refl
      | inr (inr e) ↦ quiet_else i e
    ]
  ]

  -- After any other failure the session is invalid and reserved to be removed.
  pub send_proc_failed :
      (code : ErrorCode)
      → (s.sessions p).is_valid ≢ invalid
      → get_use_size (s.sessions p).send_rb ≢ 0
      → wsa_send (send_buffers (s.sessions p).send_rb) ≡ send_failed code
      → code ≢ would_block
      → length s.discon < max_session
      → send_proc wsa_send p s ≡ ok (tt, reserved s p)
  unfolding after_send on_error reserve_session_disconnected push_discon store_session
  send_proc_failed would_block valid some e other room = absurd (other refl)
  send_proc_failed conn_reset valid some e other room =
      send_proc-after_send valid some ∙ rw (e, ne→not_== _ _ not_null, lt→ltb _ _ room) refl
  send_proc_failed other_error valid some e other room =
      send_proc-after_send valid some ∙ rw (e, ne→not_== _ _ not_null, lt→ltb _ _ room) refl
