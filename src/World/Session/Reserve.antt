-- ===== src/World/Session/Reserve.antt =====
-- `ReserveSessionDisconnected`, by the frame rules.
use mmotcpfighter.Base.{
  ℕ, ◌≡◌, ◌≢◌, refl, true, false, List, [], ◌∷◌, ◌++◌, ◌==◌, arith, ltb, length, Bool-cases, inl,
  inr,
}
use mmotcpfighter.LinkedList.{Ptr, null}
use mmotcpfighter.LinkedList.Chain.{has, has-append}
use mmotcpfighter.World.{Server, SessionData, invalid, max_session}
use mmotcpfighter.World.Monad.{set_at, store_session}
use mmotcpfighter.World.Session.{push_discon, reserve_session_disconnected}
use mmotcpfighter.World.Frame.{AreDistinct, Placed, Reserved, Keeps, Ends, faults, returns}
use mmotcpfighter.World.Session.Frames.{set_at-field}

AreDistinct-append :
    (ps : List Ptr) (p : Ptr) → AreDistinct ps → has p ps ≡ false → AreDistinct (ps ++ (p ∷ []))
AreDistinct-append [] p d out = (refl, tt)
AreDistinct-append (x ∷ ps) p (new, d) out =
    (ground (arith, has-append x ps (p ∷ [])), AreDistinct-append ps p d (ground arith))

-- A session that was valid is made invalid and added to the reserved.
module _ (s : Server) (p : Ptr) (valid : (s.sessions p).is_valid ≢ invalid)
    (known : (n : ℕ) (ps : List Ptr) → Reserved n s ps → Placed n s p) where
  abbrev reserving : Server
  reserving = record s {
    sessions = set_at s.sessions p (record (s.sessions p) { is_valid = invalid });
    discon = s.discon ++ (p ∷ []);
  }

  reserving-same :
      {A : Type 0} (f : SessionData → A)
      → f (record (s.sessions p) { is_valid = invalid }) ≡ f (s.sessions p)
      → (q : Ptr) → f (reserving.sessions q) ≡ f (s.sessions q)
  reserving-same f e = set_at-field f s p _ e

  reserving-off :
      (ps : List Ptr)
      → ((q : Ptr) → has q ps ≡ true → (s.sessions q).is_valid ≡ invalid)
      → (q : Ptr) → has q (ps ++ (p ∷ [])) ≡ true
      → (reserving.sessions q).is_valid ≡ invalid
  unfolding set_at
  reserving-off ps off q h = elim (Bool-cases (q == p)) [
    | inl same ↦ rw same
    | inr other ↦ rw other (off q (ground (arith, has-append q ps (p ∷ []))))
  ]

  reserving-listed :
      (ps : List Ptr) (q : Ptr)
      → ((s.sessions q).is_valid ≡ invalid → has q ps ≡ true)
      → (reserving.sessions q).is_valid ≡ invalid
      → has q (ps ++ (p ∷ [])) ≡ true
  unfolding set_at
  reserving-listed ps q listed h = elim (Bool-cases (q == p)) [
    | inl same ↦ ground (arith, has-append q ps (p ∷ []))
    | inr other ↦
        let before : (s.sessions q).is_valid ≡ invalid = rw other at h in
        let old = listed before in ground (arith, has-append q ps (p ∷ []))
  ]

  -- What was invalid still is.
  still_off :
      (q : Ptr) → (s.sessions q).is_valid ≡ invalid → (reserving.sessions q).is_valid ≡ invalid
  unfolding set_at
  still_off q h = elim (Bool-cases (q == p)) [ inl same ↦ rw same | inr other ↦ rw other h ]

  reserving-placed :
      (n : ℕ) (ps : List Ptr)
      → Reserved n s ps
      → (q : Ptr) → has q (ps ++ (p ∷ [])) ≡ true
      → Placed n s q
  reserving-placed n ps r q h = elim (Bool-cases (q == p)) [
    | inl same ↦ let at_p : q ≡ p = ground arith in rw at_p (known n ps r)
    | inr other ↦ r.placed q (ground (arith, has-append q ps (p ∷ [])))
  ]

  not_yet : (n : ℕ) (ps : List Ptr) → Reserved n s ps → has p ps ≡ false
  not_yet n ps r = elim (Bool-cases (has p ps)) [
    | inl old ↦ absurd (valid (r.off p old))
    | inr new ↦ new
  ]

  Keeps-reserving : Keeps s reserving
  Keeps-reserving = record {
    arr = refl;
    num = refl;
    recv = reserving-same (λ (x : SessionData). x.recv_rb) refl;
    client = reserving-same (λ (x : SessionData). x.client) refl;
    sock = reserving-same (λ (x : SessionData). x.client_sock) refl;
    handle = λ c. refl;
    more = p ∷ [];
    grown = refl;
    reserved = λ n ps r. record {
      once = AreDistinct-append ps p r.once (not_yet n ps r);
      off = reserving-off ps r.off;
      listed = λ i lt. reserving-listed ps (s.session_arr i) (r.listed i lt);
      placed = reserving-placed n ps r;
      live = λ i on. r.live i (λ h. on (still_off (s.session_arr i) h));
    };
  }

  pub reserve-Ends : Ends s (reserve_session_disconnected p s)
  unfolding reserve_session_disconnected push_discon store_session
  reserve-Ends = elim (Bool-cases (p == null)) [
    | inl e ↦ rw e (faults (λ h. cc))
    | inr e ↦ elim (Bool-cases (ltb (length s.discon) max_session)) [
      | inl room ↦ rw (e, room) (returns Keeps-reserving)
      | inr full ↦ rw (e, full) (faults (λ h. cc))
    ]
  ]

-- A valid session that an entry of the array points to.
pub known_at :
    (s : Server) (p : Ptr) (handle : ℕ)
    → p ≡ s.session_arr handle
    → (s.sessions p).is_valid ≢ invalid
    → (n : ℕ) (ps : List Ptr) → Reserved n s ps
    → Placed n s p
known_at s p handle e valid n ps r = rw e (r.live handle (rw e at valid))

pub reserve_at-Ends :
    (s : Server) (handle : ℕ)
    → (s.sessions (s.session_arr handle)).is_valid ≢ invalid
    → Ends s (reserve_session_disconnected (s.session_arr handle) s)
reserve_at-Ends s handle valid =
    reserve-Ends s (s.session_arr handle) valid (known_at s _ handle refl valid)
