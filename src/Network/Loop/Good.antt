-- ===== src/Network/Loop/Good.antt =====
-- The invariant of the server between the calls of its layers, and the rules for commands that keep it.
use mmotcpfighter.Base.{
  ℕ, ◌≡◌, ◌≢◌, refl, ap, sym, ◌∙◌, subst, Bool, true, false, List, ◌++◌, if◌then◌else◌, ◌==◌,
  Bool-cases, inl, inr, Outcome, ok, err, Fault, out_of_fuel, Settles,
}
use mmotcpfighter.Ring.Valid.{IsValid}
use mmotcpfighter.LinkedList.{Ptr}
use mmotcpfighter.World.{Server, SessionData}
use mmotcpfighter.World.Monad.{Cmd, resume, lift, set_at}
use mmotcpfighter.World.Frame.{Reserved, Reserved-same, Placed, Keeps, Ends, faults, returns}
use mmotcpfighter.World.Session.Frames.{set_at-field}
use mmotcpfighter.Network.Sessions.Handles.{Consistent, client_at, LeavesHandles-Consistent}
use mmotcpfighter.Network.Loop.Frame.{Keeps-LeavesHandles}

-- The places of the sessions agree with the handles of their clients, the sessions that are invalid are exactly those
-- of `ps`, each once, and the receiving rings are valid.
pub record IsGoodBut (ps : List Ptr) (s : Server) : Type 0 where
  pub consistent : Consistent s
  pub reserved : Reserved s.session_num s ps
  pub rings : (p : Ptr) → Placed s.session_num s p → IsValid (s.sessions p).recv_rb

-- The sessions that are invalid are those reserved for removal.
abbrev pub IsGood : Server → Type 0
IsGood s = IsGoodBut s.discon s

-- The sessions of `s` are sessions of `t`, with the same sockets.
abbrev pub Grows : Server → Server → Type 0
Grows s t =
    (p : Ptr)
    → Placed s.session_num s p
    → Placed t.session_num t p × ((t.sessions p).client_sock ≡ (s.sessions p).client_sock)

pub Grows-refl : (s : Server) → Grows s s
Grows-refl s p there = (there, refl)

pub Grows-trans : (s t u : Server) → Grows s t → Grows t u → Grows s u
Grows-trans s t u f g p there =
    let (mid, e) = f p there in let (late, e') = g p mid in (late, e' ∙ e)

Placed-same :
    (s t : Server) (p : Ptr)
    → t.session_arr ≡ s.session_arr
    → t.session_num ≡ s.session_num
    → Placed t.session_num t p
    → Placed s.session_num s p
Placed-same s t p arr num (i, lt, e) = (i, rw (← num) lt, ap (λ f. f i) (sym arr) ∙ e)

pub Keeps-IsGoodBut :
    {s t : Server} (ps : List Ptr) (k : Keeps s t) → IsGoodBut ps s → IsGoodBut (ps ++ k.more) t
Keeps-IsGoodBut {s} {t} ps k g = record {
  consistent = LeavesHandles-Consistent (Keeps-LeavesHandles k) g.consistent;
  reserved =
      subst (λ n. Reserved n t (ps ++ k.more)) (sym k.num) (k.reserved s.session_num ps g.reserved);
  rings = λ p there. rw (k.recv p) (g.rings p (Placed-same s t p k.arr k.num there));
}

pub Keeps-IsGood : {s t : Server} → Keeps s t → IsGood s → IsGood t
Keeps-IsGood {s} {t} k g = subst (λ ps. IsGoodBut ps t) (sym k.grown) (Keeps-IsGoodBut s.discon k g)

pub Keeps-Grows : {s t : Server} → Keeps s t → Grows s t
Keeps-Grows {s} {t} k p there = (Placed-same t s p (sym k.arr) (sym k.num) there, k.sock p)

pub IsGoodBut-same :
    (ps : List Ptr) (s t : Server)
    → ((q : Ptr) → (t.clients q).handle ≡ (s.clients q).handle)
    → t.session_arr ≡ s.session_arr
    → t.session_num ≡ s.session_num
    → t.sessions ≡ s.sessions
    → IsGoodBut ps s
    → IsGoodBut ps t
IsGoodBut-same ps s t handles arr num sessions g = record {
  consistent =
      LeavesHandles-Consistent
        (record {
          num = num;
          arr = arr;
          sessions = λ q. ap (λ f. (f q).client) sessions;
          handles = handles;
        })
        g.consistent;
  reserved =
      subst (λ n. Reserved n t ps) (sym num)
        (Reserved-same s.session_num s t ps arr (λ q. ap (λ f. (f q).is_valid) sessions)
          g.reserved);
  rings = λ q there. rw sessions (g.rings q (Placed-same s t q arr num there));
}

-- The server with one session changed, but for its client and for its being valid.
module _ (s : Server) (p : Ptr) (sd : SessionData) (g : IsGood s)
    (same_client : sd.client ≡ (s.sessions p).client)
    (same_sock : sd.client_sock ≡ (s.sessions p).client_sock)
    (same_valid : sd.is_valid ≡ (s.sessions p).is_valid) (ring : IsValid sd.recv_rb) where
  abbrev pub changed : Server
  changed = record s { sessions = set_at s.sessions p sd }

  client_changed : (i : ℕ) → client_at changed i ≡ client_at s i
  client_changed i =
      set_at-field (λ (x : SessionData). x.client) s p sd same_client (s.session_arr i)

  pub changed-Grows : Grows s changed
  changed-Grows q there =
      (there, set_at-field (λ (x : SessionData). x.client_sock) s p sd same_sock q)

  pub changed-IsGood : IsGood changed
  unfolding set_at
  changed-IsGood = record {
    consistent = record {
      bounded = g.consistent.bounded;
      session_there = g.consistent.session_there;
      client_there = λ i lt. rw (client_changed i) (g.consistent.client_there i lt);
      agree = λ i lt. rw (client_changed i) (g.consistent.agree i lt);
    };
    reserved =
        Reserved-same s.session_num s changed s.discon refl
          (set_at-field (λ (x : SessionData). x.is_valid) s p sd same_valid) g.reserved;
    rings = λ q there. elim (Bool-cases (q == p)) [
      | inl same ↦ rw same ring
      | inr other ↦ rw other (g.rings q there)
    ];
  }

-- How a command that begins in `s` ends: by a fault, which is not that of too little fuel, or in a good state with the sessions of `s` and perhaps
-- more.
pub data Stays {A : Type 0} (s : Server) : Outcome (A × Server) → Type 0 where
  breaks : {f : Fault} → f ≢ out_of_fuel → Stays s (err f)
  stays : {a : A} {t : Server} → IsGood t → Grows s t → Stays s (ok (a, t))

module _ {A : Type 0} where
  pub Stays-refl : {s : Server} (a : A) → IsGood s → Stays s (ok (a, s))
  Stays-refl {s} a g = stays g (Grows-refl s)

  pub Stays-trans : {s t : Server} (o : Outcome (A × Server)) → Grows s t → Stays t o → Stays s o
  Stays-trans (err f) grows (breaks h) = breaks h
  Stays-trans {s} {t} (ok (a, u)) grows (stays g more) = stays g (Grows-trans s t u grows more)

  pub Ends-Stays : {s : Server} (o : Outcome (A × Server)) → IsGood s → Ends s o → Stays s o
  Ends-Stays (err f) g (faults h) = breaks h
  Ends-Stays (ok (a, t)) g (returns k) = stays (Keeps-IsGood k g) (Keeps-Grows k)

  pub Stays-if :
      (b : Bool) (m n : Cmd A) (s : Server)
      → Stays s (m s)
      → Stays s (n s)
      → Stays s ((if b then m else n) s)
  Stays-if true m n s sm sn = sm
  Stays-if false m n s sm sn = sn

module _ {A B : Type 0} where
  -- The rest of a command, in the state and with the result that the first part leaves.
  pub Stays-resume :
      (s : Server) (k : A → Cmd B) (o : Outcome (A × Server))
      → Stays s o
      → ((a : A) (t : Server) → o ≡ ok (a, t) → IsGood t → Grows s t → Stays t (k a t))
      → Stays s (resume k o)
  Stays-resume s k (err f) (breaks other) h = breaks other
  Stays-resume s k (ok (a, t)) (stays g grows) h = Stays-trans (k a t) grows (h a t refl g grows)

  pub Stays-lift :
      (s : Server) (k : A → Cmd B) (o : Outcome A)
      → Settles o
      → ((a : A) → o ≡ ok a → Stays s (k a s))
      → Stays s (resume k (lift o s))
  Stays-lift s k (err f) settles h = breaks (λ e. settles.apply (ap err e))
  Stays-lift s k (ok a) settles h = h a refl
