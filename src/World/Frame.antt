-- ===== src/World/Frame.antt =====
-- What the game leaves alone of the network's state, and keeps of the list of reserved sessions. One rule
-- for each way to build a command, for `search`.
use mmotcpfighter.Base.{
  ℕ, ◌<◌, ◌≡◌, ◌≢◌, refl, sym, ap, ◌∙◌, Bool, true, false, List, [], ◌∷◌, ◌++◌, append-nil,
  append_assoc, if◌then◌else◌, arith, Outcome, ok, err, Fault, out_of_fuel, Settles,
}
use mmotcpfighter.LinkedList.{Ptr}
use mmotcpfighter.LinkedList.Chain.{has}
use mmotcpfighter.World.{Server, invalid}
use mmotcpfighter.World.Monad.{Cmd, pure, ◌>>=◌, resume, fault, state, modify, lift}

abbrev pub AreDistinct : List Ptr → Type 0
AreDistinct [] = Unit {0}
AreDistinct (p ∷ ps) = (has p ps ≡ false) × AreDistinct ps

-- The session stands among the first `n` of the array.
abbrev pub Placed : ℕ → Server → Ptr → Type 0
Placed n s p = (i : ℕ) × (i < n) × (s.session_arr i ≡ p)

-- The sessions of `ps` are invalid and stand among the first `n` of the array, each is listed once, and no other
-- of these is invalid. A valid session that an entry of the array points to, be it behind the first `n`, stands among
-- them.
pub record Reserved (n : ℕ) (s : Server) (ps : List Ptr) : Type 0 where
  pub once : AreDistinct ps
  pub off : (p : Ptr) → has p ps ≡ true → (s.sessions p).is_valid ≡ invalid
  pub listed :
      (i : ℕ)
      → i < n
      → (s.sessions (s.session_arr i)).is_valid ≡ invalid
      → has (s.session_arr i) ps ≡ true
  pub placed : (p : Ptr) → has p ps ≡ true → Placed n s p
  pub live :
      (i : ℕ) → (s.sessions (s.session_arr i)).is_valid ≢ invalid → Placed n s (s.session_arr i)

-- A change that keeps the array and what sessions are valid.
pub Reserved-same :
    (n : ℕ) (s t : Server) (ps : List Ptr)
    → t.session_arr ≡ s.session_arr
    → ((p : Ptr) → (t.sessions p).is_valid ≡ (s.sessions p).is_valid)
    → Reserved n s ps
    → Reserved n t ps
Reserved-same n s t ps arr valid r = record {
  once = r.once;
  off = λ p h. valid p ∙ r.off p h;
  listed = λ i lt. rw arr (λ h. r.listed i lt (sym (valid (s.session_arr i)) ∙ h));
  placed = λ p h. rw arr (r.placed p h);
  live = λ i. rw arr (λ on. r.live i (λ h. on (valid (s.session_arr i) ∙ h)));
}

-- From `s` to `t` the sessions keep their places, their clients, their sockets and what they have received, the clients
-- keep their handles, and the sessions that become invalid are those that are added to the reserved.
pub record Keeps (s t : Server) : Type 0 where
  pub arr : t.session_arr ≡ s.session_arr
  pub num : t.session_num ≡ s.session_num
  pub recv : (p : Ptr) → (t.sessions p).recv_rb ≡ (s.sessions p).recv_rb
  pub client : (p : Ptr) → (t.sessions p).client ≡ (s.sessions p).client
  pub sock : (p : Ptr) → (t.sessions p).client_sock ≡ (s.sessions p).client_sock
  pub handle : (c : Ptr) → (t.clients c).handle ≡ (s.clients c).handle
  pub more : List Ptr
  pub grown : t.discon ≡ s.discon ++ more
  pub reserved : (n : ℕ) (ps : List Ptr) → Reserved n s ps → Reserved n t (ps ++ more)

pub Keeps-refl : (s : Server) → Keeps s s
Keeps-refl s = record {
  arr = refl;
  num = refl;
  recv = λ p. refl;
  client = λ p. refl;
  sock = λ p. refl;
  handle = λ c. refl;
  more = [];
  grown = sym (append-nil s.discon);
  reserved = λ n ps r. rw (append-nil ps) r;
}

pub Keeps-trans : {s t u : Server} → Keeps s t → Keeps t u → Keeps s u
Keeps-trans k l = record {
  arr = l.arr ∙ k.arr;
  num = l.num ∙ k.num;
  recv = λ p. l.recv p ∙ k.recv p;
  client = λ p. l.client p ∙ k.client p;
  sock = λ p. l.sock p ∙ k.sock p;
  handle = λ c. l.handle c ∙ k.handle c;
  more = k.more ++ l.more;
  grown = l.grown ∙ ap (λ ps. ps ++ l.more) k.grown ∙ append_assoc _ k.more l.more;
  reserved = λ n ps r.
      rw (← append_assoc ps k.more l.more) (l.reserved n (ps ++ k.more) (k.reserved n ps r));
}

-- A change of other parts of the state.
pub Keeps-rest :
    (s t : Server)
    → t.session_arr ≡ s.session_arr
    → t.session_num ≡ s.session_num
    → t.sessions ≡ s.sessions
    → t.clients ≡ s.clients
    → t.discon ≡ s.discon
    → Keeps s t
Keeps-rest s t arr num sessions clients discon = record {
  arr = arr;
  num = num;
  recv = λ p. ap (λ f. (f p).recv_rb) sessions;
  client = λ p. ap (λ f. (f p).client) sessions;
  sock = λ p. ap (λ f. (f p).client_sock) sessions;
  handle = λ c. ap (λ f. (f c).handle) clients;
  more = [];
  grown = discon ∙ sym (append-nil s.discon);
  reserved = λ n ps r.
      rw (append-nil ps) (Reserved-same n s t ps arr (λ p. ap (λ f. (f p).is_valid) sessions) r);
}

-- How a command that begins in `s` ends: by a fault, which is not that of too little fuel, or in a state
-- that keeps what is said above.
pub data Ends {A : Type 0} (s : Server) : Outcome (A × Server) → Type 0 where
  faults : {f : Fault} → f ≢ out_of_fuel → Ends s (err f)
  returns : {a : A} {t : Server} → Keeps s t → Ends s (ok (a, t))

pub record Framed {A : Type 0} (m : Cmd A) : Type 0 where
  pub at : (s : Server) → Ends s (m s)

pub Ends-trans :
    {A : Type 0} {s t : Server} (o : Outcome (A × Server)) → Keeps s t → Ends t o → Ends s o
Ends-trans (err f) k (faults h) = faults h
Ends-trans (ok (a, u)) k (returns l) = returns (Keeps-trans k l)

pub Ends-if :
    {A : Type 0} (b : Bool) (m n : Cmd A) (s : Server)
    → Ends s (m s)
    → Ends s (n s)
    → Ends s ((if b then m else n) s)
Ends-if true m n s em en = em
Ends-if false m n s em en = en

module _ {A : Type 0} where
  pub Framed-pure : (a : A) → Framed (pure a)
  Framed-pure a = record { at = λ s. returns (Keeps-refl s) }

  pub Framed-lift : (o : Outcome A) → Settles o → Framed (lift o)
  Framed-lift (ok a) h = record { at = λ s. returns (Keeps-refl s) }
  Framed-lift (err f) h = record { at = λ s. faults (λ e. h.apply (ap err e)) }

  pub Framed-fault : (f : Fault) → f ≢ out_of_fuel → Framed (fault {A = A} f)
  Framed-fault f h = record { at = λ s. faults h }

  pub Framed-if : (b : Bool) (m n : Cmd A) → Framed m → Framed n → Framed (if b then m else n)
  Framed-if true m n fm fn = fm
  Framed-if false m n fm fn = fn

pub Framed-state : Framed state
Framed-state = record { at = λ s. returns (Keeps-refl s) }

pub Framed-modify : (f : Server → Server) → ((s : Server) → Keeps s (f s)) → Framed (modify f)
Framed-modify f h = record { at = λ s. returns (h s) }

module _ {A B : Type 0} where
  pub Ends-resume :
      {s : Server} (o : Outcome (A × Server)) (k : A → Cmd B)
      → Ends s o
      → ((a : A) → Framed (k a))
      → Ends s (resume k o)
  Ends-resume (err f) k (faults h) fk = faults h
  Ends-resume (ok (a, t)) k (returns l) fk = Ends-trans (k a t) l ((fk a).at t)

  pub Framed-bind :
      (m : Cmd A) (k : A → Cmd B) → Framed m → ((a : A) → Framed (k a)) → Framed (m >>= k)
  Framed-bind m k fm fk = record { at = λ s. Ends-resume (m s) k (fm.at s) fk }

  -- The same where the rest relies on the state that the first part leaves.
  pub Ends-bind :
      (s : Server) (m : Cmd A) (k : A → Cmd B)
      → Ends s (m s)
      → ((a : A) (t : Server) → m s ≡ ok (a, t) → Ends t (k a t))
      → Ends s ((m >>= k) s)
  Ends-bind s m k e h = go (m s) refl e
    where
      go : (o : Outcome (A × Server)) → m s ≡ o → Ends s o → Ends s (resume k o)
      go (err f) q (faults n) = faults n
      go (ok (a, t)) q (returns l) = Ends-trans (k a t) l (h a t q)

-- What a command that keeps to its frame does where it returns.
pub Ends-Keeps :
    {A : Type 0} {s : Server} (o : Outcome (A × Server)) {a : A} {t : Server}
    → Ends s o
    → o ≡ ok (a, t)
    → Keeps s t
Ends-Keeps (err f) (faults h) e = absurd (ground arith)
Ends-Keeps (ok (a, t)) {t = u} (returns k) e = let same : t ≡ u = ground arith in rw (← same) k

pub Ends-settles :
    {A : Type 0} {s : Server} (o : Outcome (A × Server)) → Ends s o → o ≢ err out_of_fuel
Ends-settles (err f) (faults h) e = h (cc)
Ends-settles (ok r) k e = cc

pub ruleset frames = (Framed-pure, Framed-if, Framed-state, Framed-bind)
