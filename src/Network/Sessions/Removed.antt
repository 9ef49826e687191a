-- ===== src/Network/Sessions/Removed.antt =====
-- The reserved sessions, when `RemoveSession` takes one away.
use mmotcpfighter.Base.{
  ℕ, ◌+◌, ◌≤◌, ◌<◌, ◌≡◌, ◌≢◌, refl, ap, sym, ◌∙◌, subst, true, List, ◌∷◌, ◌==◌, ==_refl, ne→not_==,
  Bool-cases, inl, inr, arith,
}
use mmotcpfighter.LinkedList.{Ptr}
use mmotcpfighter.LinkedList.Chain.{has}
use mmotcpfighter.World.{Server, invalid}
use mmotcpfighter.World.Monad.{set_at}
use mmotcpfighter.World.Frame.{Reserved, Placed}
use mmotcpfighter.Network.Sessions.Handles.{Consistent, removed, num-removed}

-- No session stands at two places.
same_place :
    (s : Server) (i j : ℕ)
    → Consistent s
    → i < s.session_num
    → j < s.session_num
    → s.session_arr i ≡ s.session_arr j
    → i ≡ j
same_place s i j c li lj e =
    sym (c.agree i li) ∙ ap (λ p. (s.clients (s.sessions p).client).handle) e ∙ c.agree j lj

module _ (t : Server) (last j : ℕ) (c : Consistent t) (full : t.session_num ≡ last + 1)
    (le : j ≤ last) where
  abbrev pub after : Server
  after = removed t last j

  num_after : after.session_num ≡ last
  num_after = let h = num-removed t last j full (omega (arith, c.bounded)) in omega arith

  pub sessions_after : after.sessions ≡ t.sessions
  sessions_after = elim (Bool-cases (last == j)) [ inl e ↦ rw e refl | inr e ↦ rw e refl ]

  pub discon_after : after.discon ≡ t.discon
  discon_after = elim (Bool-cases (last == j)) [ inl e ↦ rw e refl | inr e ↦ rw e refl ]

  -- Where an entry of the array comes from.
  came_from :
      (i : ℕ)
      → (k : ℕ) × (after.session_arr i ≡ t.session_arr k) × (i < last → (k < last + 1) × (k ≢ j))
  unfolding set_at
  came_from i = elim (Bool-cases (last == j)) [
    | inl e ↦ (i, rw e refl, λ lt. (omega arith, λ q. ground arith))
    | inr e ↦ elim (Bool-cases (i == j)) [
      | inl same ↦ (last, rw (e, same) refl, λ lt. (omega arith, λ q. ground arith))
      | inr other ↦ (i, rw (e, other) refl, λ lt. (omega arith, λ q. ground arith))
    ]
  ]

  -- And where one goes, but for that of the session that is taken away.
  goes_to :
      (k : ℕ)
      → k < last + 1
      → k ≢ j
      → (i : ℕ) × (i < last) × (after.session_arr i ≡ t.session_arr k)
  unfolding set_at
  goes_to k lt other = elim (Bool-cases (last == j)) [
    | inl e ↦ (k, ground arith, rw e refl)
    | inr e ↦ elim (Bool-cases (k == last)) [
      | inl same ↦ (
        j,
        ground arith,
        let at_last : k ≡ last = ground arith in rw (e, ==_refl j, at_last) refl,
      )
      | inr before ↦ (k, ground arith, rw (e, ne→not_== k j other) refl)
    ]
  ]

  pub Placed-before : (p : Ptr) → Placed after.session_num after p → Placed t.session_num t p
  Placed-before p (i, lt, e) =
      let (k, from, there) = came_from i in
      let (lk, _) = there (rw num_after at lt) in (k, omega arith, sym from ∙ e)

  still_Placed : (p : Ptr) → p ≢ t.session_arr j → Placed (last + 1) t p → Placed last after p
  still_Placed p other (k, lt, e) =
      let (i, li, e') = goes_to k lt (λ q. other (sym e ∙ ap t.session_arr q)) in (i, li, e' ∙ e)

  module _ (ps : List Ptr) (r : Reserved (last + 1) t (t.session_arr j ∷ ps)) where
    valid_after :
        (i k : ℕ)
        → after.session_arr i ≡ t.session_arr k
        → (after.sessions (after.session_arr i)).is_valid ≡ (t.sessions (t.session_arr k)).is_valid
    valid_after i k e =
        ap (λ f. (f (after.session_arr i)).is_valid) sessions_after
        ∙ ap (λ q. (t.sessions q).is_valid) e

    removed-listed :
        (i : ℕ)
        → i < last
        → (after.sessions (after.session_arr i)).is_valid ≡ invalid
        → has (after.session_arr i) ps ≡ true
    removed-listed i lt h =
        let (k, e, there) = came_from i in
        let (lk, other) = there lt in
        let before : has (t.session_arr k) (t.session_arr j ∷ ps) ≡ true =
          r.listed k lk (sym (valid_after i k e) ∙ h) in
        let apart : t.session_arr k ≢ t.session_arr j =
          λ q. other (same_place t k j c (omega arith) (omega arith) q) in
        rw e (ground arith)

    not_removed : (p : Ptr) → has p ps ≡ true → p ≢ t.session_arr j
    not_removed p h e =
        let old = r.once.0 in let there : has (t.session_arr j) ps ≡ true = rw e at h in cc

    removed-live :
        (i : ℕ)
        → (after.sessions (after.session_arr i)).is_valid ≢ invalid
        → Placed last after (after.session_arr i)
    removed-live i on =
        let (k, e, _) = came_from i in
        let valid : (t.sessions (t.session_arr k)).is_valid ≢ invalid =
          λ h. on (valid_after i k e ∙ h) in
        let gone : (t.sessions (t.session_arr j)).is_valid ≡ invalid = r.off _ (ground arith) in
        rw e (
          still_Placed (t.session_arr k) (λ q. valid (ap (λ x. (t.sessions x).is_valid) q ∙ gone))
            (r.live k valid))

    left-Reserved : Reserved last after ps
    left-Reserved = record {
      once = r.once.1;
      off = λ p h. ap (λ f. (f p).is_valid) sessions_after ∙ r.off p (rw h (ground arith));
      listed = removed-listed;
      placed = λ p h. still_Placed p (not_removed p h) (r.placed p (ground arith));
      live = removed-live;
    }

    pub Reserved-removed : Reserved after.session_num after ps
    Reserved-removed = subst (λ n. Reserved n after ps) (sym num_after) left-Reserved
