-- ===== src/Network/Sessions/Handles.antt =====
-- `RemoveSession`: the places in `g_pSessionArr` and the handles of the clients agree.
use mmotcpfighter.Base.{
  ℕ, ◌+◌, ◌-◌, ◌%◌, ◌^◌, ◌≤◌, ◌<◌, ◌≡◌, ◌≢◌, refl, ap, sym, ◌∙◌, ◌==◌, if◌then◌else◌, ne→not_==,
  ==_refl, lt→ltb, Bool-cases, inl, inr, arith, ok, err, Fault,
}
use mmotcpfighter.LinkedList.{Ptr, null}
use mmotcpfighter.World.{Server, max_session}
use mmotcpfighter.World.Monad.{set_at, load_session, load_client, store_client}
use mmotcpfighter.World.Session.{session_at}
use mmotcpfighter.Network.Callbacks.{Callbacks}
use mmotcpfighter.Network.Sessions.{remove_session, move_last, set_session_at}

-- The client of the session at a place.
abbrev pub client_at : Server → ℕ → Ptr
client_at s i = (s.sessions (s.session_arr i)).client

-- Every place below the number of sessions holds one, whose client knows the place.
pub record Consistent (s : Server) : Type 0 where
  pub bounded : s.session_num ≤ max_session
  pub session_there : (i : ℕ) → i < s.session_num → s.session_arr i ≢ null
  pub client_there : (i : ℕ) → i < s.session_num → client_at s i ≢ null
  pub agree : (i : ℕ) → i < s.session_num → (s.clients (client_at s i)).handle ≡ i

-- What is asked of the callback that removes a client: it returns, and leaves the places of the
-- sessions, their clients and the handles as they are.
pub record LeavesHandles (s t : Server) : Type 0 where
  pub num : t.session_num ≡ s.session_num
  pub arr : t.session_arr ≡ s.session_arr
  pub sessions : (p : Ptr) → (t.sessions p).client ≡ (s.sessions p).client
  pub handles : (c : Ptr) → (t.clients c).handle ≡ (s.clients c).handle

same-client_at : {s t : Server} → LeavesHandles s t → (i : ℕ) → client_at t i ≡ client_at s i
same-client_at {s} {t} l i =
    l.sessions (t.session_arr i) ∙ ap (λ f. (s.sessions (f i)).client) l.arr

pub LeavesHandles-Consistent : {s t : Server} → LeavesHandles s t → Consistent s → Consistent t
LeavesHandles-Consistent {s} {t} l c = record {
  bounded = rw l.num c.bounded;
  session_there = λ i lt. rw l.arr (c.session_there i (rw (← l.num) lt));
  client_there = λ i lt. rw (same-client_at l i) (c.client_there i (rw (← l.num) lt));
  agree = λ i lt. rw (same-client_at l i) (l.handles _ ∙ c.agree i (rw (← l.num) lt));
}

-- The state after the last session has been put at a place.
abbrev pub moved : Server → ℕ → ℕ → Server
moved s last handle = record s {
  session_arr = set_at s.session_arr handle (s.session_arr last);
  clients =
      set_at s.clients (client_at s last)
        (record (s.clients (client_at s last)) { handle = handle });
}

abbrev pub one_fewer : Server → Server
one_fewer s = record s { session_num = (s.session_num + 2 ^ 32 - 1) % 2 ^ 32 }

module _ (s : Server) (last handle : ℕ) (c : Consistent s) (full : s.session_num ≡ last + 1)
    (below : handle < last) where
  move_last-moved : move_last last handle s ≡ ok (tt, moved s last handle)
  unfolding move_last session_at set_session_at load_session store_client
  move_last-moved =
      rw
        (
          lt→ltb last max_session (omega (arith, c.bounded)),
          lt→ltb handle max_session (omega (arith, c.bounded)),
          ne→not_== _ _ (c.session_there last (omega arith)),
          ne→not_== _ _ (c.client_there last (omega arith)),
        )
        refl

  -- Another client than the last.
  other_client : (i : ℕ) → i < last → client_at s i ≢ client_at s last
  other_client i lt e =
      let h =
        sym (c.agree i (omega arith))
        ∙ ap (λ p. (s.clients p).handle) e
        ∙ c.agree last (omega arith) in
      omega arith

  below_last : (i : ℕ) → i < (one_fewer (moved s last handle)).session_num → i < last
  below_last i lt = let h = c.bounded in omega arith

  moved-session_there : (i : ℕ) → i < last → (moved s last handle).session_arr i ≢ null
  unfolding set_at
  moved-session_there i lt = elim (Bool-cases (i == handle)) [
    | inl e ↦ rw e (c.session_there last (omega arith))
    | inr e ↦ rw e (c.session_there i (omega arith))
  ]

  moved-client_there : (i : ℕ) → i < last → client_at (moved s last handle) i ≢ null
  unfolding set_at
  moved-client_there i lt = elim (Bool-cases (i == handle)) [
    | inl e ↦ rw e (c.client_there last (omega arith))
    | inr e ↦ rw e (c.client_there i (omega arith))
  ]

  moved-agree :
      (i : ℕ)
      → i < last
      → ((moved s last handle).clients (client_at (moved s last handle) i)).handle ≡ i
  unfolding set_at
  moved-agree i lt = elim (Bool-cases (i == handle)) [
    | inl e ↦ rw (e, ==_refl (client_at s last)) (ground arith)
    | inr e ↦ rw (e, ne→not_== _ _ (other_client i lt)) (c.agree i (omega arith))
  ]

  moved-Consistent : Consistent (one_fewer (moved s last handle))
  moved-Consistent = record {
    bounded = let h = c.bounded in omega arith;
    session_there = λ i lt. moved-session_there i (below_last i lt);
    client_there = λ i lt. moved-client_there i (below_last i lt);
    agree = λ i lt. moved-agree i (below_last i lt);
  }

-- Where the last session goes, nothing is put in its place.
last-Consistent :
    (s : Server) (last : ℕ) → Consistent s → s.session_num ≡ last + 1 → Consistent (one_fewer s)
last-Consistent s last c full =
    let h = c.bounded in
    let below : (i : ℕ) → i < (one_fewer s).session_num → i < s.session_num = λ i lt. omega arith in
    record {
      bounded = omega arith;
      session_there = λ i lt. c.session_there i (below i lt);
      client_there = λ i lt. c.client_there i (below i lt);
      agree = λ i lt. c.agree i (below i lt);
    }

-- The rest of `RemoveSession`, after the callback.
abbrev pub removed : Server → ℕ → ℕ → Server
removed t last i = one_fewer (if last == i then t else moved t last i)

pub removed-Consistent :
    (t : Server) (last i : ℕ)
    → Consistent t
    → t.session_num ≡ last + 1
    → i ≤ last
    → Consistent (removed t last i)
removed-Consistent t last i c full le = elim (Bool-cases (last == i)) [
  | inl e ↦ rw e (last-Consistent t last c full)
  | inr e ↦ rw e (moved-Consistent t last i c full (ground arith))
]

pub num-removed :
    (t : Server) (last i : ℕ)
    → t.session_num ≡ last + 1
    → last < max_session
    → (removed t last i).session_num + 1 ≡ t.session_num
num-removed t last i full small = elim (Bool-cases (last == i)) [
  | inl e ↦ rw e (omega arith)
  | inr e ↦ rw e (omega arith)
]

-- What `RemoveSession` on the session at a place leaves, where the callback returns.
module _ (cb : Callbacks) (s t : Server) (i : ℕ) (c : Consistent s) (lt : i < s.session_num)
    (e : cb.remove_client (client_at s i) s ≡ ok (tt, t)) (leaves : LeavesHandles s t) where
  pub num_left : t.session_num ≡ (s.session_num - 1) + 1
  num_left = omega (arith, leaves.num)

  pub remove_session-removed :
      remove_session cb (s.session_arr i) s ≡ ok (tt, removed t (s.session_num - 1) i)
  unfolding remove_session load_session load_client
  remove_session-removed =
      let last : ℕ = s.session_num - 1 in
      let ct = LeavesHandles-Consistent leaves c in
      let h = c.bounded in
      let wrapped : (t.session_num + 2 ^ 32 - 1) % 2 ^ 32 ≡ last = omega (arith, num_left) in
      rw
        (
          ne→not_== _ _ (c.session_there i lt),
          ne→not_== _ _ (c.client_there i lt),
          e,
          c.agree i lt,
          wrapped,
        )
        (elim (Bool-cases (last == i)) [
          | inl same ↦ rw same refl
          | inr other ↦ rw (other, move_last-moved t last i ct num_left (ground arith)) refl
        ])

  -- Where the places of the sessions and the handles of their clients agree, `RemoveSession` on the
  -- session at a place returns without a fault, given that the callback does and leaves them alone; they
  -- agree again, and there is one session fewer.
  pub remove_session-Consistent :
      (s' : Server) × (remove_session cb (s.session_arr i) s ≡ ok (tt, s'))
      × Consistent s'
      × (s'.session_num + 1 ≡ s.session_num)
  remove_session-Consistent =
      let last : ℕ = s.session_num - 1 in
      let h = c.bounded in
      (
        removed t last i,
        remove_session-removed,
        removed-Consistent t last i (LeavesHandles-Consistent leaves c) num_left (omega arith),
        num-removed t last i num_left (omega arith) ∙ leaves.num,
      )

-- Where the callback faults, so does `RemoveSession`.
pub remove_session-err :
    (cb : Callbacks) (s : Server) (i : ℕ) {f : Fault}
    → Consistent s
    → i < s.session_num
    → cb.remove_client (client_at s i) s ≡ err f
    → remove_session cb (s.session_arr i) s ≡ err f
unfolding remove_session load_session load_client
remove_session-err cb s i c lt e =
    rw (ne→not_== _ _ (c.session_there i lt), ne→not_== _ _ (c.client_there i lt), e) refl
