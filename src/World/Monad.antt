-- ===== src/World/Monad.antt =====
-- Commands: functions of the server's state that may fault.
use mmotcpfighter.Base.{ℕ, ◌==◌, if◌then◌else◌, Outcome, ok, err, Fault, null_pointer}
use mmotcpfighter.LinkedList.{Ptr, null}
use mmotcpfighter.World.{Server, Client, SessionData}

abbrev pub Cmd : Type 0 → Type 0
Cmd A = Server → Outcome (A × Server)

abbrev pub pure : {A : Type 0} → A → Cmd A
pure a s = ok (a, s)

-- The rest of a command after the outcome of its first part.
abbrev pub resume : {A B : Type 0} → (A → Cmd B) → Outcome (A × Server) → Outcome (B × Server)
resume rest (err e) = err e
resume rest (ok (a, s)) = rest a s

infixl 5 ◌>>=◌ ◌>>◌
abbrev pub ◌>>=◌ : {A B : Type 0} → Cmd A → (A → Cmd B) → Cmd B
first >>= rest = λ s. resume rest (first s)

abbrev pub ◌>>◌ : {A B : Type 0} → Cmd A → Cmd B → Cmd B
first >> rest = first >>= (λ _. rest)

abbrev pub fault : {A : Type 0} → Fault → Cmd A
fault e s = err e

abbrev pub state : Cmd Server
state s = ok (s, s)

abbrev pub modify : (Server → Server) → Cmd (Unit {0})
modify f s = ok (tt, f s)

-- The outcome of code that does not touch the state.
abbrev pub lift : {A : Type 0} → Outcome A → Cmd A
lift (ok a) s = ok (a, s)
lift (err e) s = err e

unfoldable pub set_at {ℓ} : {A : Type ℓ} → (ℕ → A) → ℕ → A → ℕ → A
set_at f p a q = if q == p then a else f q

-- `*p` for a pointer to a client, and a write to it.
unfoldable pub load_client : Ptr → Cmd Client
load_client p s = if p == null then err null_pointer else ok (s.clients p, s)

unfoldable pub store_client : Ptr → (Client → Client) → Cmd (Unit {0})
unfolding set_at
store_client p f s =
    if p == null
    then err null_pointer
    else ok (tt, record s { clients = set_at s.clients p (f (s.clients p)) })

-- The same for a session.
unfoldable pub load_session : Ptr → Cmd SessionData
load_session p s = if p == null then err null_pointer else ok (s.sessions p, s)

unfoldable pub store_session : Ptr → (SessionData → SessionData) → Cmd (Unit {0})
unfolding set_at
store_session p f s =
    if p == null
    then err null_pointer
    else ok (tt, record s { sessions = set_at s.sessions p (f (s.sessions p)) })
