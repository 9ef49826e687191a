-- ===== src/Network/Sessions/Register.antt =====
-- `RegisterSession`: a new session at the end of `g_pSessionArr`.
use mmotcpfighter.Base.{
  ℕ, ◌+◌, ◌%◌, ◌^◌, ◌<◌, ◌≡◌, ◌≢◌, refl, ap, sym, ◌∙◌, ◌==◌, ne→not_==, ==_refl, lt→ltb, Bool-cases,
  inl, inr, arith, ok, err, Fault,
}
use mmotcpfighter.LinkedList.{Ptr, null}
use mmotcpfighter.World.{Server, SessionData, max_session, valid}
use mmotcpfighter.World.Monad.{set_at, store_session}
use mmotcpfighter.Network.Callbacks.{Callbacks}
use mmotcpfighter.Network.Sessions.{register_session, set_session_at, fresh_ring}
use mmotcpfighter.Network.Sessions.Handles.{Consistent, client_at}

-- A session as it is handed to a new connection; its client is not yet known.
abbrev pub fresh_session : SessionData → ℕ → ℕ → ℕ → SessionData
fresh_session sd sock id now = record sd {
  id = id;
  client_sock = sock;
  last_recv_time = now;
  is_valid = valid;
  recv_rb = fresh_ring;
  send_rb = fresh_ring;
}

-- The state in which the callback is called.
abbrev pub entered : Server → Ptr → ℕ → ℕ → ℕ → Server
entered s p sock id now = record s {
  sessions = set_at s.sessions p (fresh_session (s.sessions p) sock id now);
  session_arr = set_at s.session_arr s.session_num p;
}

-- What is asked of the callback that makes a client: the new client has the handle, the handles of the
-- others, the places of the sessions and their clients are as they were.
pub record MakesClient (s t : Server) (client : Ptr) (handle : ℕ) : Type 0 where
  pub made : client ≢ null
  pub given : (t.clients client).handle ≡ handle
  pub num : t.session_num ≡ s.session_num
  pub arr : t.session_arr ≡ s.session_arr
  pub sessions : (q : Ptr) → (t.sessions q).client ≡ (s.sessions q).client
  pub handles :
      (i : ℕ) → i < handle → (t.clients (client_at s i)).handle ≡ (s.clients (client_at s i)).handle

abbrev pub registered : Server → Ptr → Ptr → Server
registered t p client = record t {
  sessions = set_at t.sessions p (record (t.sessions p) { client = client });
  session_num = (t.session_num + 1) % 2 ^ 32;
}

module _ (s t : Server) (p client : Ptr) (sock id now : ℕ) (c : Consistent s)
    (room : s.session_num < max_session) (not_null : p ≢ null)
    (new : (i : ℕ) → i < s.session_num → s.session_arr i ≢ p)
    (makes : MakesClient (entered s p sock id now) t client s.session_num) where
  arr_own : t.session_arr s.session_num ≡ p
  unfolding set_at
  arr_own = rw (makes.arr, ==_refl s.session_num) refl

  arr_other : (i : ℕ) → i < s.session_num → t.session_arr i ≡ s.session_arr i
  unfolding set_at
  arr_other i lt = rw (makes.arr, ne→not_== i s.session_num (λ e. omega arith)) refl

  client_own : client_at (registered t p client) s.session_num ≡ client
  unfolding set_at
  client_own =
      let own : (set_at t.sessions p (record (t.sessions p) { client = client })
            (t.session_arr s.session_num)).client
          ≡ client =
        rw (arr_own, ==_refl p) refl in
      own

  client_before :
      (i : ℕ) → i < s.session_num → client_at (entered s p sock id now) i ≡ client_at s i
  unfolding set_at
  client_before i lt =
      let before : (set_at s.sessions p (fresh_session (s.sessions p) sock id now)
            (set_at s.session_arr s.session_num p i)).client
          ≡ client_at s i =
        rw (ne→not_== i s.session_num (λ e. omega arith), ne→not_== _ _ (new i lt)) refl in
      before

  client_other : (i : ℕ) → i < s.session_num → client_at (registered t p client) i ≡ client_at s i
  unfolding set_at
  client_other i lt =
      let other : (set_at t.sessions p (record (t.sessions p) { client = client })
            (t.session_arr i)).client
          ≡ client_at s i =
        rw (arr_other i lt, ne→not_== _ _ (new i lt))
          (makes.sessions (s.session_arr i) ∙ rw (ne→not_== _ _ (new i lt)) refl) in
      other

  handle_other : (i : ℕ) → i < s.session_num → (t.clients (client_at s i)).handle ≡ i
  handle_other i lt =
      ap (λ q. (t.clients q).handle) (sym (client_before i lt))
      ∙ makes.handles i lt
      ∙ ap (λ q. (s.clients q).handle) (client_before i lt)
      ∙ c.agree i lt

  pub registered-num : (registered t p client).session_num ≡ s.session_num + 1
  registered-num = let e = makes.num in omega arith

  registered-session_there :
      (i : ℕ) → i < s.session_num + 1 → (registered t p client).session_arr i ≢ null
  registered-session_there i lt = elim (Bool-cases (i == s.session_num)) [
    | inl e ↦ let same : i ≡ s.session_num = ground arith in rw (same, arr_own) not_null
    | inr e ↦
        let below : i < s.session_num = ground arith in
        rw (arr_other i below) (c.session_there i below)
  ]

  registered-client_there :
      (i : ℕ) → i < s.session_num + 1 → client_at (registered t p client) i ≢ null
  registered-client_there i lt = elim (Bool-cases (i == s.session_num)) [
    | inl e ↦ let same : i ≡ s.session_num = ground arith in rw (same, client_own) makes.made
    | inr e ↦
        let below : i < s.session_num = ground arith in
        rw (client_other i below) (c.client_there i below)
  ]

  registered-agree :
      (i : ℕ)
      → i < s.session_num + 1
      → ((registered t p client).clients (client_at (registered t p client) i)).handle ≡ i
  registered-agree i lt = elim (Bool-cases (i == s.session_num)) [
    | inl e ↦
        let same : i ≡ s.session_num = ground arith in
        ap (λ k. (t.clients (client_at (registered t p client) k)).handle) same
        ∙ ap (λ q. (t.clients q).handle) client_own
        ∙ makes.given
        ∙ sym same
    | inr e ↦
        let below : i < s.session_num = ground arith in
        ap (λ q. (t.clients q).handle) (client_other i below) ∙ handle_other i below
  ]

  pub registered-Consistent : Consistent (registered t p client)
  registered-Consistent = record {
    bounded = rw registered-num (omega arith);
    session_there = λ i lt. registered-session_there i (rw (← registered-num) lt);
    client_there = λ i lt. registered-client_there i (rw (← registered-num) lt);
    agree = λ i lt. registered-agree i (rw (← registered-num) lt);
  }

  module _ (cb : Callbacks)
      (e : cb.register_client s.session_num id (entered s p sock id now) ≡ ok (client, t)) where
    pub register_session-registered :
        register_session cb p sock id now s ≡ ok (tt, registered t p client)
    unfolding register_session store_session set_session_at
    register_session-registered =
        rw (ne→not_== _ _ not_null, lt→ltb _ _ room, e, ne→not_== _ _ not_null) refl

    -- Where the places of the sessions and the handles of their clients agree and there is room for one
    -- more, `RegisterSession` with new memory returns without a fault, given that the callback makes a
    -- client with the handle that it is given; they agree again, and the new session is the last.
    pub register_session-Consistent :
        (s' : Server) × (register_session cb p sock id now s ≡ ok (tt, s'))
        × Consistent s'
        × (s'.session_num ≡ s.session_num + 1)
        × (s'.session_arr s.session_num ≡ p)
    register_session-Consistent = (
      registered t p client,
      register_session-registered,
      registered-Consistent,
      registered-num,
      arr_own,
    )

-- Where the callback faults, so does `RegisterSession`.
pub register_session-err :
    (cb : Callbacks) (s : Server) (p : Ptr) (sock id now : ℕ) {f : Fault}
    → p ≢ null
    → s.session_num < max_session
    → cb.register_client s.session_num id (entered s p sock id now) ≡ err f
    → register_session cb p sock id now s ≡ err f
unfolding register_session store_session set_session_at
register_session-err cb s p sock id now not_null room e =
    rw (ne→not_== _ _ not_null, lt→ltb _ _ room, e) refl
