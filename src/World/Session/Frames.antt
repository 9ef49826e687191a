-- ===== src/World/Session/Frames.antt =====
-- The commands on sessions and clients, by the frame rules.
use mmotcpfighter.Base.{
  ℕ, zero, suc, ◌+◌, ◌≡◌, refl, sym, [], ◌==◌, append-nil, arith, ltb, Bool-cases, inl, inr,
  ==_refl,
}
use mmotcpfighter.LinkedList.{Ptr, null}
use mmotcpfighter.World.{Server, Client, SessionData, max_session}
use mmotcpfighter.World.Monad.{set_at, load_client, store_client, load_session}
use mmotcpfighter.World.Session.{
  session_at, is_network_state_invalid, get_last_recv_time, valid_clients_from,
  get_all_valid_client,
}
use mmotcpfighter.World.Frame.{
  Reserved-same, Keeps, Keeps-refl, faults, returns, Framed, Framed-pure, Framed-bind, frames,
}

-- A change that touches neither the sessions nor what the clients' handles and the reserved are.
pub load_client-Framed : (p : Ptr) → Framed (load_client p)
unfolding load_client
load_client-Framed p = elim (Bool-cases (p == null)) [
  | inl e ↦ record { at = λ s. rw e (faults (λ h. cc)) }
  | inr e ↦ record { at = λ s. rw e (returns (Keeps-refl s)) }
]

pub load_session-Framed : (p : Ptr) → Framed (load_session p)
unfolding load_session
load_session-Framed p = elim (Bool-cases (p == null)) [
  | inl e ↦ record { at = λ s. rw e (faults (λ h. cc)) }
  | inr e ↦ record { at = λ s. rw e (returns (Keeps-refl s)) }
]

-- The clients with one of them changed, but for its handle.
Keeps-client :
    (s : Server) (p : Ptr) (c : Client)
    → c.handle ≡ (s.clients p).handle
    → Keeps s (record s { clients = set_at s.clients p c })
unfolding set_at
Keeps-client s p c e = record {
  arr = refl;
  num = refl;
  recv = λ q. refl;
  client = λ q. refl;
  sock = λ q. refl;
  handle = λ q. elim (Bool-cases (q == p)) [
    | inl same ↦ let at_p : q ≡ p = ground arith in rw same (rw at_p e)
    | inr other ↦ rw other
  ];
  more = [];
  grown = sym (append-nil s.discon);
  reserved = λ n ps r. rw (append-nil ps) (Reserved-same n s _ ps refl (λ q. refl) r);
}

pub store_client-Framed :
    (p : Ptr) (f : Client → Client)
    → ((c : Client) → (f c).handle ≡ c.handle)
    → Framed (store_client p f)
unfolding store_client
store_client-Framed p f h = elim (Bool-cases (p == null)) [
  | inl e ↦ record { at = λ s. rw e (faults (λ h. cc)) }
  | inr e ↦ record {
    at = λ s. rw e (returns (Keeps-client s p (f (s.clients p)) (h (s.clients p))));
  }
]

-- A field that is the same in the new session as in the old.
pub set_at-field :
    {A : Type 0} (f : SessionData → A) (s : Server) (p : Ptr) (sd : SessionData)
    → f sd ≡ f (s.sessions p)
    → (q : Ptr) → f (set_at s.sessions p sd q) ≡ f (s.sessions q)
unfolding set_at
set_at-field f s p sd e q = elim (Bool-cases (q == p)) [
  | inl same ↦ let at_p : q ≡ p = ground arith in rw same (rw at_p e)
  | inr other ↦ rw other
]

-- The sessions with another sending ring in one of them.
pub Keeps-session :
    (s : Server) (p : Ptr) (sd : SessionData)
    → sd.recv_rb ≡ (s.sessions p).recv_rb
    → sd.client ≡ (s.sessions p).client
    → sd.client_sock ≡ (s.sessions p).client_sock
    → sd.is_valid ≡ (s.sessions p).is_valid
    → Keeps s (record s { sessions = set_at s.sessions p sd })
Keeps-session s p sd e f h g =
    let valid : (q : Ptr) → (set_at s.sessions p sd q).is_valid ≡ (s.sessions q).is_valid =
      set_at-field (λ (x : SessionData). x.is_valid) s p sd g in
    record {
      arr = refl;
      num = refl;
      recv = set_at-field (λ (x : SessionData). x.recv_rb) s p sd e;
      client = set_at-field (λ (x : SessionData). x.client) s p sd f;
      sock = set_at-field (λ (x : SessionData). x.client_sock) s p sd h;
      handle = λ c. refl;
      more = [];
      grown = sym (append-nil s.discon);
      reserved = λ n ps r. rw (append-nil ps) (Reserved-same n s _ ps refl valid r);
    }

pub session_at-Framed : (handle : ℕ) → Framed (session_at handle)
unfolding session_at
session_at-Framed handle = elim (Bool-cases (ltb handle max_session)) [
  | inl e ↦ record { at = λ s. rw e (returns (Keeps-refl s)) }
  | inr e ↦ record { at = λ s. rw e (faults (λ h. cc)) }
]

pub is_network_state_invalid-Framed : (handle : ℕ) → Framed (is_network_state_invalid handle)
unfolding is_network_state_invalid
is_network_state_invalid-Framed handle = search (frames, session_at-Framed, load_session-Framed)

pub get_last_recv_time-Framed : (handle : ℕ) → Framed (get_last_recv_time handle)
unfolding get_last_recv_time
get_last_recv_time-Framed handle = search (frames, session_at-Framed, load_session-Framed)

pub set_at_self : {A : Type 0} (f : ℕ → A) (p : ℕ) (a : A) → set_at f p a p ≡ a
unfolding set_at
set_at_self f p a = rw (==_refl p) refl

valid_clients_from-Framed : (n i : ℕ) → Framed (valid_clients_from n i)
unfolding valid_clients_from
valid_clients_from-Framed zero i = Framed-pure []
valid_clients_from-Framed (suc n) i = Framed-bind _ _ (session_at-Framed i) (λ p.
    Framed-bind _ _ (load_session-Framed p)
      (λ sd. Framed-bind _ _ (valid_clients_from-Framed n (i + 1)) (λ rest. Framed-pure _)))

pub get_all_valid_client-Framed : Framed get_all_valid_client
unfolding get_all_valid_client
get_all_valid_client-Framed = search (frames, valid_clients_from-Framed)
