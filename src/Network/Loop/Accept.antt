-- ===== src/Network/Loop/Accept.antt =====
-- `AcceptProc` keeps the invariant of the server.
use mmotcpfighter.Base.{
  ℕ, ◌+◌, ◌%◌, ◌^◌, ◌<◌, ◌≡◌, ◌≢◌, refl, ap, sym, ◌∙◌, subst, true, false, ◌==◌, leb, Option, none,
  some, Bool-cases, inl, inr, Outcome, ok, err, arith,
}
use mmotcpfighter.Ring.Valid.{IsValid}
use mmotcpfighter.LinkedList.{Ptr, null}
use mmotcpfighter.LinkedList.Chain.{has}
use mmotcpfighter.World.{Server, Client, SessionData, invalid, max_session}
use mmotcpfighter.World.Monad.{set_at, resume}
use mmotcpfighter.World.Frame.{Placed, Reserved, Reserved-same, Keeps}
use mmotcpfighter.World.Session.Frames.{set_at-field, set_at_self}
use mmotcpfighter.Network.Callbacks.{Callbacks}
use mmotcpfighter.Network.Sessions.{register_session, accept_proc}
use mmotcpfighter.Network.Sessions.Handles.{client_at}
use mmotcpfighter.Network.Sessions.Register.{
  entered, fresh_session, registered, registered-num, registered-Consistent,
  register_session-registered, register_session-err, MakesClient,
}
use mmotcpfighter.Network.Loop.Good.{
  IsGood, IsGoodBut-same, Grows, Grows-refl, Stays, breaks, stays, Stays-refl, Stays-trans,
}
use mmotcpfighter.Network.Loop.Makes.{
  Makes, fails, makes, set_at_other, fresh_ring-IsValid, Makes-MakesClient,
}

module _ (s : Server) (p : Ptr) (sock id now : ℕ) (g : IsGood s)
    (room : s.session_num < max_session) (not_null : p ≢ null)
    (unused : Placed s.session_num s p → ⊥) where
  new : (i : ℕ) → i < s.session_num → s.session_arr i ≢ p
  new i lt e = unused (i, lt, e)

  abbrev at_call : Server
  at_call = entered s p sock id now

  own_place : at_call.session_arr s.session_num ≡ p
  own_place = set_at_self s.session_arr s.session_num p

  old_place : (i : ℕ) → i < s.session_num → at_call.session_arr i ≡ s.session_arr i
  old_place i lt = set_at_other s.session_arr s.session_num i p (λ e. omega arith)

  new_session : at_call.sessions p ≡ fresh_session (s.sessions p) sock id now
  new_session = set_at_self s.sessions p (fresh_session (s.sessions p) sock id now)

  old_session : (q : Ptr) → q ≢ p → at_call.sessions q ≡ s.sessions q
  old_session q other = set_at_other s.sessions p q (fresh_session (s.sessions p) sock id now) other

  placed_other : (q : Ptr) → Placed s.session_num s q → q ≢ p
  placed_other q there e = unused (subst (λ x. Placed s.session_num s x) e there)

  still_there : (q : Ptr) → Placed s.session_num s q → Placed (s.session_num + 1) at_call q
  still_there q (i, lt, e) = (i, omega arith, old_place i lt ∙ e)

  own_Placed : Placed (s.session_num + 1) at_call p
  own_Placed = (s.session_num, omega arith, own_place)

  valid_at : (q r : Ptr) → q ≡ r → (at_call.sessions q).is_valid ≡ (at_call.sessions r).is_valid
  valid_at q r e = ap (λ x. (at_call.sessions x).is_valid) e

  own_valid : (at_call.sessions p).is_valid ≡ 1
  own_valid = ap (λ (x : SessionData). x.is_valid) new_session

  entered-listed :
      (i : ℕ)
      → i < s.session_num + 1
      → (at_call.sessions (at_call.session_arr i)).is_valid ≡ invalid
      → has (at_call.session_arr i) s.discon ≡ true
  entered-listed i lt h = elim (Bool-cases (i == s.session_num)) [
    | inl same ↦
        let here : i ≡ s.session_num = ground arith in
        let e : at_call.session_arr i ≡ p = ap (λ k. at_call.session_arr k) here ∙ own_place in
        let off = sym own_valid ∙ sym (valid_at _ _ e) ∙ h in absurd (omega arith)
    | inr before ↦
        let below : i < s.session_num = ground arith in
        let e = old_place i below in
        let old = old_session (s.session_arr i) (new i below) in
        rw e (
          g.reserved.listed i below
            (sym (ap (λ (x : SessionData). x.is_valid) old) ∙ sym (valid_at _ _ e) ∙ h))
  ]

  entered-live :
      (i : ℕ)
      → (at_call.sessions (at_call.session_arr i)).is_valid ≢ invalid
      → Placed (s.session_num + 1) at_call (at_call.session_arr i)
  entered-live i on = elim (Bool-cases (i == s.session_num)) [
    | inl same ↦
        let here : i ≡ s.session_num = ground arith in
        let e : at_call.session_arr i ≡ p = ap (λ k. at_call.session_arr k) here ∙ own_place in
        subst (Placed (s.session_num + 1) at_call) (sym e) own_Placed
    | inr before ↦
        let e : at_call.session_arr i ≡ s.session_arr i =
          set_at_other s.session_arr s.session_num i p (λ q. ground arith) in
        subst (Placed (s.session_num + 1) at_call) (sym e)
          (elim (Bool-cases (s.session_arr i == p)) [
            | inl own ↦
                let q : s.session_arr i ≡ p = ground arith in
                subst (Placed (s.session_num + 1) at_call) (sym q) own_Placed
            | inr other ↦
                let apart : s.session_arr i ≢ p = λ q. ground arith in
                let old =
                  ap (λ (x : SessionData). x.is_valid) (old_session (s.session_arr i) apart) in
                still_there (s.session_arr i)
                  (g.reserved.live i (λ h. on (valid_at _ _ e ∙ old ∙ h)))
          ])
  ]

  -- The new session counts already, although the number of sessions is not yet raised.
  entered-Reserved : Reserved (s.session_num + 1) at_call s.discon
  entered-Reserved = record {
    once = g.reserved.once;
    off = λ q h.
        ap (λ (x : SessionData). x.is_valid)
          (old_session q (placed_other q (g.reserved.placed q h)))
        ∙ g.reserved.off q h;
    listed = entered-listed;
    placed = λ q h. still_there q (g.reserved.placed q h);
    live = entered-live;
  }

  -- The callback has returned.
  module _ (t : Server) (client : Ptr) (c : Client) (there : client ≢ null)
      (given : c.handle ≡ s.session_num)
      (new_client : (i : ℕ) → i < s.session_num → client_at at_call i ≢ client)
      (k : Keeps (record at_call { clients = set_at s.clients client c }) t) where
    made : MakesClient at_call t client s.session_num
    made = Makes-MakesClient at_call s.session_num client t c there given new_client k

    abbrev done : Server
    done = registered t p client

    num_done : done.session_num ≡ s.session_num + 1
    num_done = registered-num s t p client sock id now g.consistent room not_null new made

    -- The place and the receiving ring of each session.
    arr_done : done.session_arr ≡ at_call.session_arr
    arr_done = k.arr

    valid_done : (q : Ptr) → (done.sessions q).is_valid ≡ (t.sessions q).is_valid
    valid_done =
        set_at-field (λ (x : SessionData). x.is_valid) t p
          (record (t.sessions p) { client = client }) refl

    ring_done : (q : Ptr) → (done.sessions q).recv_rb ≡ (at_call.sessions q).recv_rb
    ring_done q =
        set_at-field (λ (x : SessionData). x.recv_rb) t p
          (record (t.sessions p) { client = client }) refl q
        ∙ k.recv q

    done-Reserved : Reserved done.session_num done done.discon
    done-Reserved =
        subst (λ n. Reserved n done done.discon) (sym num_done)
          (Reserved-same (s.session_num + 1) t done done.discon refl valid_done (
            subst (λ ps. Reserved (s.session_num + 1) t ps) (sym k.grown)
              (k.reserved (s.session_num + 1) s.discon (
                Reserved-same (s.session_num + 1) at_call _ s.discon refl (λ q. refl)
                  entered-Reserved))))

    ring_at :
        (q : Ptr)
        → (i : ℕ) → i < s.session_num + 1
        → at_call.session_arr i ≡ q
        → IsValid (at_call.sessions q).recv_rb
    ring_at q i lt e = elim (Bool-cases (q == p)) [
      | inl own ↦
          let same : q ≡ p = ground arith in
          subst (λ (x : SessionData). IsValid x.recv_rb)
            (sym (ap at_call.sessions same ∙ new_session)) fresh_ring-IsValid
      | inr other ↦
          let apart : q ≢ p = λ h. ground arith in
          let below : i < s.session_num = elim (Bool-cases (i == s.session_num)) [
            | inl last ↦
                let here : i ≡ s.session_num = ground arith in
                absurd (apart (sym e ∙ ap at_call.session_arr here ∙ own_place))
            | inr before ↦ ground arith
          ] in
          subst (λ (x : SessionData). IsValid x.recv_rb) (sym (old_session q apart))
            (g.rings q (i, below, sym (old_place i below) ∙ e))
    ]

    done-IsGood : IsGood done
    done-IsGood = record {
      consistent =
          registered-Consistent s t p client sock id now g.consistent room not_null new made;
      reserved = done-Reserved;
      rings = λ q (i, lt, e).
          subst IsValid (sym (ring_done q))
            (ring_at q i (subst (λ n. i < n) num_done lt) (ap (λ f. f i) (sym arr_done) ∙ e));
    }

    done-Grows : Grows s done
    done-Grows q (i, lt, e) = (
      (
        i,
        subst (λ n. i < n) (sym num_done) (omega arith),
        ap (λ f. f i) arr_done ∙ old_place i lt ∙ e,
      ),
      set_at-field (λ (x : SessionData). x.client_sock) t p
            (record (t.sessions p) { client = client }) refl q
          ∙ k.sock q
          ∙ ap (λ (x : SessionData). x.client_sock) (old_session q (placed_other q (i, lt, e))),
    )

  register_session-Stays :
      (cb : Callbacks)
      → Makes at_call s.session_num (cb.register_client s.session_num id at_call)
      → Stays s (register_session cb p sock id now s)
  register_session-Stays cb m = go _ refl m
    where
      go :
          (o : Outcome (Ptr × Server))
          → cb.register_client s.session_num id at_call ≡ o
          → Makes at_call s.session_num o
          → Stays s (register_session cb p sock id now s)
      go (err f) e (fails other) =
          rw (register_session-err cb s p sock id now not_null room e) (breaks other)
      go (ok (client, t)) e (makes c there given new_client k) =
          rw
            (register_session-registered s t p client sock id now g.consistent room not_null new
              (made t client c there given new_client k) cb e)
            (stays (done-IsGood t client c there given new_client k)
              (done-Grows t client c there given new_client k))

-- The state in which `AcceptProc` registers a session.
abbrev pub numbered : Server → Server
numbered s = record s { next_id = (s.next_id + 1) % 2 ^ 32 }

numbered-IsGood : (s : Server) → IsGood s → IsGood (numbered s)
numbered-IsGood s g = IsGoodBut-same s.discon s (numbered s) (λ q. refl) refl refl refl g

then_true :
    {s : Server} (o : Outcome (Unit {0} × Server))
    → Stays s o
    → Stays s (resume (λ _ t. ok (true, t)) o)
then_true (err f) (breaks h) = breaks h
then_true (ok (u, t)) (stays g grows) = stays g grows

pub accept_proc-Stays :
    (cb : Callbacks) (accepted : Option ℕ) (p : Ptr) (now : ℕ) (s : Server)
    → IsGood s
    → p ≢ null
    → (Placed s.session_num s p → ⊥)
    → ((sock : ℕ)
        → Makes (entered (numbered s) p sock s.next_id now) s.session_num (
            cb.register_client s.session_num s.next_id (entered (numbered s) p sock s.next_id now)))
    → Stays s (accept_proc cb accepted p now s)
unfolding accept_proc
accept_proc-Stays cb none p now s g not_null unused clients = breaks (λ h. cc)
accept_proc-Stays cb (some sock) p now s g not_null unused clients =
    elim (Bool-cases (leb max_session s.session_num)) [
      | inl full ↦ rw full (Stays-refl false g)
      | inr room ↦ rw room (
          Stays-trans _ (Grows-refl s) (
            then_true _ (
              register_session-Stays (numbered s) p sock s.next_id now (numbered-IsGood s g)
                (ground arith) not_null unused cb (clients sock))))
    ]
