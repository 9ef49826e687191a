-- ===== src/Network/Loop/Makes.antt =====
-- What is asked of the callback that makes a client.
use mmotcpfighter.Base.{
  ℕ, ◌<◌, ◌≡◌, ◌≢◌, refl, ap, ◌∙◌, ne→not_==, Outcome, ok, err, Fault, out_of_fuel, arith,
}
use mmotcpfighter.Ring.Valid.{IsValid}
use mmotcpfighter.LinkedList.{Ptr, null}
use mmotcpfighter.World.{Server, Client}
use mmotcpfighter.World.Monad.{set_at}
use mmotcpfighter.World.Frame.{Keeps}
use mmotcpfighter.World.Session.Frames.{set_at_self}
use mmotcpfighter.Network.Sessions.{fresh_ring}
use mmotcpfighter.Network.Sessions.Handles.{client_at}
use mmotcpfighter.Network.Sessions.Register.{MakesClient}

-- How the callback that makes a client ends: by a fault, or with a client that no session among the first `handle`
-- has, that has the handle, and all else as the frame says.
pub data Makes (s : Server) (handle : ℕ) : Outcome (Ptr × Server) → Type 0 where
  fails : {f : Fault} → f ≢ out_of_fuel → Makes s handle (err f)
  makes :
      {client : Ptr} {t : Server} (c : Client)
      → client ≢ null
      → c.handle ≡ handle
      → ((i : ℕ) → i < handle → client_at s i ≢ client)
      → Keeps (record s { clients = set_at s.clients client c }) t
      → Makes s handle (ok (client, t))

pub set_at_other : {A : Type 0} (f : ℕ → A) (p q : ℕ) (a : A) → q ≢ p → set_at f p a q ≡ f q
unfolding set_at
set_at_other f p q a other = rw (ne→not_== _ _ other) refl

pub fresh_ring-IsValid : IsValid fresh_ring
fresh_ring-IsValid = omega arith

pub Makes-MakesClient :
    (s : Server) (handle : ℕ) (client : Ptr) (t : Server) (c : Client)
    → client ≢ null
    → c.handle ≡ handle
    → ((i : ℕ) → i < handle → client_at s i ≢ client)
    → Keeps (record s { clients = set_at s.clients client c }) t
    → MakesClient s t client handle
Makes-MakesClient s handle client t c there given new k = record {
  made = there;
  given = k.handle client ∙ ap (λ (x : Client). x.handle) (set_at_self s.clients client c) ∙ given;
  num = k.num;
  arr = k.arr;
  sessions = k.client;
  handles = λ i lt.
      k.handle (client_at s i)
      ∙ ap (λ (x : Client). x.handle) (set_at_other s.clients client (client_at s i) c (new i lt));
}
