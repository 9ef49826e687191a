-- ===== src/Main/Start.antt =====
-- `main` of main.cpp: the server from the start of the process to its end.
use mmotcpfighter.Base.{
  ℕ, ◌<◌, ◌≡◌, ◌≢◌, refl, Bool, true, false, Option, none, some, List, [], if◌then◌else◌,
  Bool-cases, inl, inr, ◌⊎◌, Outcome, ok, err, Fault, out_of_fuel,
}
use mmotcpfighter.Ring.{buffer_size}
use mmotcpfighter.Serial.{empty}
use mmotcpfighter.LinkedList.{Ptr, null, Heap, ends}
use mmotcpfighter.World.{Server, Client, SessionData, invalid, max_session}
use mmotcpfighter.World.Monad.{Cmd, pure, ◌>>=◌}
use mmotcpfighter.Network.Startup.{Startup, alloc_buffers, listen_on, network_init_and_listen}
use mmotcpfighter.Network.Loop.Good.{IsGood}
use mmotcpfighter.Main.{Round, serve}
use mmotcpfighter.Main.Serve.{IsStarted, IsStarted-IsGood, AllHonest, serve_ends}

-- The globals at the start of the process, all of them zero but for what the constructors set, beside a memory that may hold
-- anything.
unfoldable pub globals : (Ptr → Client) → Heap → (Ptr → SessionData) → Server
globals clients links sessions = record {
  clients = clients;
  links = links;
  grid = λ y x. record { links = ends null null; num_of_client = 0 };
  sessions = sessions;
  session_arr = λ i. null;
  session_num = 0;
  discon = [];
  around = record { num = 0; clients = λ i. null };
  sb1 = empty;
  sb2 = empty;
  next_id = 0;
  sync_count = 0;
  discon_count = 0;
  discon_by_rb_full = 0;
  discon_by_timeout = 0;
}

-- What follows `NetworkInitAndListen`; `has_handle` is whether `_beginthreadex` returns something else than
-- `INVALID_HANDLE_VALUE`, as it does where it fails, too: it then returns 0.
unfoldable pub after_init : ℕ → ℕ → Bool → ℕ → List Round → Option ℕ → Cmd (Unit {0})
after_init fuel rounds has_handle now rs none = pure tt
after_init fuel rounds has_handle now rs (some listen) =
    if has_handle then serve fuel rounds listen now rs else pure tt

unfoldable pub server_main : ℕ → ℕ → Startup → Bool → ℕ → List Round → Cmd (Unit {0})
unfolding after_init
server_main fuel rounds st has_handle now rs = do
  listen ← network_init_and_listen st
  after_init fuel rounds has_handle now rs listen

globals-IsStarted :
    (clients : Ptr → Client) (links : Heap) (sessions : Ptr → SessionData)
    → (sessions null).is_valid ≡ invalid
    → IsStarted (globals clients links sessions)
unfolding globals
globals-IsStarted clients links sessions off = record {
  none = refl;
  empty = λ i. refl;
  none_reserved = refl;
  off = off;
}

-- What `NetworkInitAndListen` leads to.
abbrev IsInit : Outcome (Option ℕ × Server) → Type 0
IsInit o = (listen : Option ℕ) × (t : Server) × (o ≡ ok (listen, t)) × IsStarted t

listen_on-IsInit :
    (st : Startup) (sock : Option ℕ) (s : Server) → IsStarted s → IsInit (listen_on st sock s)
unfolding listen_on alloc_buffers
listen_on-IsInit st none s start = (none, s, refl, start)
listen_on-IsInit st (some sock) s start = go st.bound st.listens st.lingers st.is_nonblocking
  where
    go :
        (a b c d : Bool)
        → IsInit (
            (if a
                then (if b
                    then (if c
                        then (if d then (alloc_buffers >>= λ _. pure (some sock)) else pure none)
                        else pure none)
                    else pure none)
                else pure none)
              s)
    go false b c d = (none, s, refl, start)
    go true false c d = (none, s, refl, start)
    go true true false d = (none, s, refl, start)
    go true true true false = (none, s, refl, start)
    go true true true true = (
      some sock,
      _,
      refl,
      record {
        none = start.none;
        empty = start.empty;
        none_reserved = start.none_reserved;
        off = start.off;
      },
    )

network_init_and_listen-IsInit :
    (st : Startup) (s : Server) → IsStarted s → IsInit (network_init_and_listen st s)
unfolding network_init_and_listen
network_init_and_listen-IsInit st s start = elim (Bool-cases st.started) [
  | inl e ↦ rw e (listen_on-IsInit st st.socket s start)
  | inr e ↦ rw e (none, s, refl, start)
]

module _ (fuel rounds : ℕ) (enough : buffer_size < fuel)
    (enough_rounds : max_session < rounds) where
  after_init-ends :
      (has_handle : Bool) (now : ℕ) (rs : List Round) (listen : Option ℕ) (s : Server)
      → IsStarted s
      → AllHonest rs
      → ((f : Fault) × (after_init fuel rounds has_handle now rs listen s ≡ err f)
          × (f ≢ out_of_fuel))
        ⊎ ((t : Server) × (after_init fuel rounds has_handle now rs listen s ≡ ok (tt, t))
            × IsGood t)
  unfolding after_init
  after_init-ends has_handle now rs none s start honest = inr (s, refl, IsStarted-IsGood start)
  after_init-ends false now rs (some listen) s start honest = inr (s, refl, IsStarted-IsGood start)
  after_init-ends true now rs (some listen) s start honest =
      serve_ends fuel rounds listen enough enough_rounds now rs s start honest

  -- The server from the start of the process, whatever Winsock answers as it starts, and then for as many rounds as are given in
  -- which what is outside the program can be relied on, with fuel above `BUFFER_SIZE` and more rounds than `MAX_SESSION` for
  -- the loops within a round: it does not run out of fuel, and where it does not fault it ends in a good state: places of
  -- sessions and handles of clients agree, only the sessions that are reserved are invalid, and the receiving rings are valid.
  -- Of the memory only the null address is known: it holds no valid session.
  pub server_main_ends :
      (st : Startup) (has_handle : Bool) (now : ℕ) (rs : List Round) (clients : Ptr → Client)
      (links : Heap) (sessions : Ptr → SessionData)
      → (sessions null).is_valid ≡ invalid
      → AllHonest rs
      → ((f : Fault) × (server_main fuel rounds st has_handle now rs
              (globals clients links sessions)
            ≡ err f)
          × (f ≢ out_of_fuel))
        ⊎ ((t : Server) × (server_main fuel rounds st has_handle now rs
                (globals clients links sessions)
              ≡ ok (tt, t))
            × IsGood t)
  unfolding server_main
  server_main_ends st has_handle now rs clients links sessions off honest =
      let (listen, t, done, start) =
        network_init_and_listen-IsInit st (globals clients links sessions)
          (globals-IsStarted clients links sessions off) in
      rw done (after_init-ends has_handle now rs listen t start honest)
