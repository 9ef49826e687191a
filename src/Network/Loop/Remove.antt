-- ===== src/Network/Loop/Remove.antt =====
-- The second loop of `NetworkProc`: the reserved sessions are removed.
use mmotcpfighter.Base.{
  ◌+◌, ◌%◌, ◌^◌, ℕ, zero, suc, ◌-◌, ◌<◌, ◌≡◌, ◌≢◌, refl, ap, sym, ◌∙◌, ◌⊎◌, inl, inr, subst, true,
  false, List, [], ◌∷◌, ◌++◌, append-nil, append_assoc, ltb, length, length-append, Outcome, ok,
  err, Fault, out_of_fuel, arith,
}
use mmotcpfighter.LinkedList.{Ptr}
use mmotcpfighter.Direction.{at}
use mmotcpfighter.World.{Server, SessionData, invalid}
use mmotcpfighter.World.Monad.{resume}
use mmotcpfighter.World.Frame.{Reserved, Ends, faults, returns}
use mmotcpfighter.Network.Callbacks.{Callbacks}
use mmotcpfighter.Network.Sessions.{remove_session}
use mmotcpfighter.Network.Sessions.Handles.{
  client_at, remove_session-removed, remove_session-err, removed-Consistent, num-removed, num_left,
}
use mmotcpfighter.Network.Sessions.Removed.{
  Reserved-removed, discon_after, sessions_after, Placed-before,
}
use mmotcpfighter.Ring.Valid.{IsValid}
use mmotcpfighter.Network.Loop.Frame.{KeepsFrame, Keeps-LeavesHandles}
use mmotcpfighter.Network.Loop.Good.{IsGood, IsGoodBut, IsGoodBut-same, Keeps-IsGoodBut}
use mmotcpfighter.Network.Loop.{remove_from, remove_reserved}

-- How the removal of the first of the reserved ends, where `ps` are the others.
data Removal (cb : Callbacks) (s : Server) (ps : List Ptr)
    : Outcome (Unit {0} × Server) → Type 0 where
  broken :
      {f : Fault} (c : Ptr) (u : Server)
      → f ≢ out_of_fuel
      → cb.remove_client c u ≡ err f
      → Removal cb s ps (err f)
  gone :
      {t : Server} (more : List Ptr)
      → IsGoodBut (ps ++ more) t
      → t.discon ≡ s.discon ++ more
      → t.session_num + 1 ≡ s.session_num
      → Removal cb s ps (ok (tt, t))

module _ (cb : Callbacks) (keeps : KeepsFrame cb) (s : Server) (j : ℕ) (ps : List Ptr)
    (lt : j < s.session_num) (g : IsGoodBut (s.session_arr j ∷ ps) s) where
  after_callback :
      (o : Outcome (Unit {0} × Server))
      → cb.remove_client (client_at s j) s ≡ o
      → Ends s o
      → Removal cb s ps (remove_session cb (s.session_arr j) s)
  after_callback (err f) e (faults other) =
      rw (remove_session-err cb s j g.consistent lt e) (broken (client_at s j) s other e)
  after_callback (ok (u, t)) e (returns k) =
      let last : ℕ = s.session_num - 1 in
      let leaves = Keeps-LeavesHandles k in
      let gt : IsGoodBut (t.session_arr j ∷ (ps ++ k.more)) t =
        subst (λ (f : ℕ → Ptr). IsGoodBut (f j ∷ (ps ++ k.more)) t) (sym k.arr)
          (Keeps-IsGoodBut (s.session_arr j ∷ ps) k g) in
      let c = gt.consistent in
      let full = num_left cb s t j g.consistent lt e leaves in
      let there : Reserved (last + 1) t (t.session_arr j ∷ (ps ++ k.more)) =
        subst (λ n. Reserved n t (t.session_arr j ∷ (ps ++ k.more))) full gt.reserved in
      rw (remove_session-removed cb s t j g.consistent lt e leaves) (
        gone k.more
          (record {
            consistent = removed-Consistent t last j c full (omega arith);
            reserved = Reserved-removed t last j c full (omega arith) (ps ++ k.more) there;
            rings = λ q old.
                subst (λ (f : Ptr → SessionData). IsValid (f q).recv_rb)
                  (sym (sessions_after t last j c full (omega arith)))
                  (gt.rings q (Placed-before t last j c full (omega arith) q old));
          })
          (discon_after t last j c full (omega arith) ∙ k.grown)
          (num-removed t last j full (omega (arith, g.consistent.bounded)) ∙ k.num))

  removal : Removal cb s ps (remove_session cb (s.session_arr j) s)
  removal = after_callback _ refl ((keeps.removes (client_at s j)).at s)

-- The session of a reserved pointer stands in the array.
going_of :
    (cb : Callbacks)
    → KeepsFrame cb
    → (s : Server) (p : Ptr) (ps : List Ptr) → IsGoodBut (p ∷ ps) s
    → Removal cb s ps (remove_session cb p s)
going_of cb keeps s p ps g =
    let (j, lt, e) = g.reserved.placed p (ground arith) in
    rw (← e) (removal cb keeps s j ps lt (rw (← e) at g))

-- How the loop ends.
data Cleared (cb : ℕ → Callbacks) : Outcome (Unit {0} × Server) → Type 0 where
  broken :
      {f : Fault} (k : ℕ) (c : Ptr) (u : Server)
      → f ≢ out_of_fuel
      → (cb k).remove_client c u ≡ err f
      → Cleared cb (err f)
  cleared : {t : Server} → IsGoodBut [] t → Cleared cb (ok (tt, t))

at-append : (done : List Ptr) (p : Ptr) (ps : List Ptr) → at (done ++ (p ∷ ps)) (length done) ≡ ok p
at-append [] p ps = refl
at-append (x ∷ done) p ps = at-append done p ps

abbrev counted : Server → Server
counted t = record t { discon_count = (t.discon_count + 1) % 2 ^ 32 }

counted-IsGoodBut : (ps : List Ptr) (t : Server) → IsGoodBut ps t → IsGoodBut ps (counted t)
counted-IsGoodBut ps t g = IsGoodBut-same ps t (counted t) (λ q. refl) refl refl refl g

-- The claim for some rounds.
abbrev RoundsClear : ℕ → (ℕ → Callbacks) → Type 0
RoundsClear rounds cb =
    (done ps : List Ptr) (s : Server)
    → IsGoodBut ps s
    → s.discon ≡ done ++ ps
    → s.session_num < rounds
    → Cleared cb (remove_from rounds cb (length done) s)

after_going :
    (rounds : ℕ) (cb : ℕ → Callbacks)
    → RoundsClear rounds cb
    → (done : List Ptr) (p : Ptr) (ps : List Ptr) (s : Server) (o : Outcome (Unit {0} × Server))
    → s.discon ≡ done ++ (p ∷ ps)
    → s.session_num < suc rounds
    → Removal (cb (length done)) s ps o
    → Cleared cb (resume (λ _ t. remove_from rounds cb (length done + 1) (counted t)) o)
after_going rounds cb ih done p ps s (err f) e lt (broken c v other h) =
    broken (length done) c v other h
after_going rounds cb ih done p ps s (ok (u, t)) e lt (gone more gt dt nt) =
    let one : length (done ++ (p ∷ [])) ≡ length done + 1 = length-append done (p ∷ []) in
    let left : t.discon ≡ (done ++ (p ∷ [])) ++ (ps ++ more) =
      dt
      ∙ ap (λ xs. xs ++ more) e
      ∙ append_assoc done (p ∷ ps) more
      ∙ sym (append_assoc done (p ∷ []) (ps ++ more)) in
    rw (← one) (
      ih (done ++ (p ∷ [])) (ps ++ more) (counted t) (counted-IsGoodBut (ps ++ more) t gt) left
        (omega arith))

remove_from-Cleared :
    (rounds : ℕ) (cb : ℕ → Callbacks) → ((k : ℕ) → KeepsFrame (cb k)) → RoundsClear rounds cb
unfolding remove_from
remove_from-Cleared zero cb keeps done ps s g e lt = absurd (omega arith)
remove_from-Cleared (suc rounds) cb keeps done [] s g e lt =
    let size : length s.discon ≡ length done = ap length (e ∙ append-nil done) in
    let over : ltb (length done) (length s.discon) ≡ false = ground arith in rw over (cleared g)
remove_from-Cleared (suc rounds) cb keeps done (p ∷ ps) s g e lt =
    let size : length s.discon ≡ length done + suc (length ps) =
      ap length e ∙ length-append done (p ∷ ps) in
    let room : ltb (length done) (length s.discon) ≡ true = ground arith in
    let found : at s.discon (length done) ≡ ok p =
      ap (λ xs. at xs (length done)) e ∙ at-append done p ps in
    rw (room, found)
      (after_going rounds cb (remove_from-Cleared rounds cb keeps) done p ps s _ e lt
        (going_of (cb (length done)) (keeps (length done)) s p ps g))

-- The server after the loop, where it returns.
pub record AllValid (t : Server) : Type 0 where
  pub good : IsGood t
  pub valid : (i : ℕ) → i < t.session_num → (t.sessions (t.session_arr i)).is_valid ≢ invalid
  pub none_left : t.discon ≡ []

-- How the removal ends: by the fault of a callback, or with valid sessions only.
abbrev pub ClearedOrFaulted : (ℕ → Callbacks) → Outcome (Unit {0} × Server) → Type 0
ClearedOrFaulted cb o =
    ((f : Fault) × (k : ℕ) × (c : Ptr) × (u : Server) × (o ≡ err f)
      × (f ≢ out_of_fuel)
      × ((cb k).remove_client c u ≡ err f))
    ⊎ ((t : Server) × (o ≡ ok (tt, t)) × AllValid t)

then_reset :
    (cb : ℕ → Callbacks) (o : Outcome (Unit {0} × Server))
    → Cleared cb o
    → ClearedOrFaulted cb (resume (λ _ t. ok (tt, record t { discon = [] })) o)
then_reset cb (err f) (broken k c u other h) = inl (f, k, c, u, refl, other, h)
then_reset cb (ok (u, t)) (cleared g) = inr (
  record t { discon = [] },
  refl,
  record {
    good = IsGoodBut-same [] t (record t { discon = [] }) (λ q. refl) refl refl refl g;
    valid = λ i lt h. let listed = g.reserved.listed i lt h in cc;
    none_left = refl;
  },
)

-- The removal of the reserved sessions at the end of `NetworkProc`, from a good state, with callbacks that keep to
-- their frame. With more rounds than there are sessions the loop does not run out of fuel, although a removal may
-- reserve more. It faults only as a callback does, or it returns a good state in which every session that is left is
-- valid and none is reserved.
pub remove_reserved_clears :
    (rounds : ℕ) (cb : ℕ → Callbacks) (s : Server)
    → ((k : ℕ) → KeepsFrame (cb k))
    → IsGood s
    → s.session_num < rounds
    → ClearedOrFaulted cb (remove_reserved rounds cb s)
unfolding remove_reserved
remove_reserved_clears rounds cb s keeps g lt =
    then_reset cb (remove_from rounds cb 0 s)
      (remove_from-Cleared rounds cb keeps [] s.discon s g refl lt)
