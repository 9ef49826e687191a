-- ===== src/World/Session/Enqueue.antt =====
-- `EnqPacketRB`: a packet into the sending ring of a client's session.
use mmotcpfighter.Base.{
  ◌+◌, ◌%◌, ◌^◌, ℕ, ◌≤◌, ◌<◌, ◌≡◌, ◌≢◌, refl, ◌∙◌, true, false, [], ◌∷◌, ◌++◌, length, lt→ltb,
  ne→not_==, ==_refl, fun_ext, arith, ok,
}
use mmotcpfighter.Memory.{Block, bytes}
use mmotcpfighter.Ring.{Ring, get_free_size}
use mmotcpfighter.Ring.Valid.{IsValid, contents}
use mmotcpfighter.Ring.Fifo.{enqueue-Put}
use mmotcpfighter.Ring.Refine.{enqueue_full}
use mmotcpfighter.LinkedList.{Ptr, null}
use mmotcpfighter.World.{Server, invalid, max_session}
use mmotcpfighter.World.Monad.{set_at, load_client, load_session, store_session}
use mmotcpfighter.World.Session.{
  enq_packet_rb, enq_valid, session_at, reject_full, reserve_session_disconnected, push_discon,
}

-- The session of a client, found through its handle.
abbrev pub session_of : Server → Ptr → Ptr
session_of s client = s.session_arr (s.clients client).handle

-- The session is no longer valid but among those to be removed, and it is counted.
abbrev pub rejected : Server → Ptr → Server
rejected s p = record s {
  sessions = set_at s.sessions p (record (s.sessions p) { is_valid = invalid });
  discon = s.discon ++ (p ∷ []);
  discon_by_rb_full = (s.discon_by_rb_full + 1) % 2 ^ 32;
}

set_at_self : {A : Type 0} (f : ℕ → A) (p : ℕ) (a : A) → set_at f p a p ≡ a
unfolding set_at
set_at_self f p a = rw (==_refl p) refl

set_at-set_at :
    {A : Type 0} (f : ℕ → A) (p : ℕ) (a b : A) → set_at (set_at f p a) p b ≡ set_at f p b
unfolding set_at
set_at-set_at f p a b = fun_ext (λ q. ground arith)

module _ (s : Server) (client : Ptr) (packet : Block) (size : ℕ) (not_null : client ≢ null)
    (in_range : (s.clients client).handle < max_session)
    (session_not_null : session_of s client ≢ null) where
  enq_packet_rb-enq_valid :
      (s.sessions (session_of s client)).is_valid ≢ invalid
      → enq_packet_rb client packet size s
        ≡ enq_valid (session_of s client) (s.sessions (session_of s client)) packet size s
  unfolding enq_packet_rb load_client load_session session_at
  enq_packet_rb-enq_valid valid =
      rw
        (
          ne→not_== _ _ not_null,
          lt→ltb _ _ in_range,
          ne→not_== _ _ session_not_null,
          ne→not_== _ _ valid,
        )
        refl

  -- An invalid session gets nothing.
  pub enq_packet_rb-invalid :
      (s.sessions (session_of s client)).is_valid ≡ invalid
      → enq_packet_rb client packet size s ≡ ok (false, s)
  unfolding enq_packet_rb load_client load_session session_at
  enq_packet_rb-invalid e =
      rw (ne→not_== _ _ not_null, lt→ltb _ _ in_range, ne→not_== _ _ session_not_null, e) refl

  -- Where a packet fits into the sending ring of a valid session, `EnqPacketRB` appends it.
  pub enq_packet_rb_room :
      (s.sessions (session_of s client)).is_valid ≢ invalid
      → IsValid (s.sessions (session_of s client)).send_rb
      → size ≢ 0
      → size ≤ packet.size
      → size ≤ get_free_size (s.sessions (session_of s client)).send_rb
      → (rb : Ring) × (enq_packet_rb client packet size s
          ≡ ok (
            true,
            record s {
              sessions =
                  set_at s.sessions
                    (session_of s client)
                    (record (s.sessions (session_of s client)) { send_rb = rb });
            },
          ))
        × IsValid rb
        × (contents rb ≡ contents (s.sessions (session_of s client)).send_rb ++ bytes packet 0 size)
  unfolding enq_valid store_session
  enq_packet_rb_room valid v some there fits =
      let (rb, e, put) = enqueue-Put packet size v there fits in
      (
        rb,
        enq_packet_rb-enq_valid valid
            ∙ rw (e, ne→not_== _ _ session_not_null, ne→not_== _ _ some) refl,
        put.valid,
        put.appended,
      )

  -- Where it does not, nothing is sent: the session becomes invalid, and is reserved to be removed.
  pub enq_packet_rb_full :
      (s.sessions (session_of s client)).is_valid ≢ invalid
      → get_free_size (s.sessions (session_of s client)).send_rb < size
      → length s.discon < max_session
      → enq_packet_rb client packet size s ≡ ok (false, rejected s (session_of s client))
  unfolding enq_valid store_session reject_full reserve_session_disconnected push_discon
  enq_packet_rb_full valid full room =
      enq_packet_rb-enq_valid valid
      ∙ rw
          (
            enqueue_full _ packet size full,
            ne→not_== _ _ session_not_null,
            ne→not_== _ _ session_not_null,
            lt→ltb _ _ room,
            set_at_self s.sessions (session_of s client) _,
            set_at-set_at s.sessions (session_of s client) _ _,
          )
          refl
