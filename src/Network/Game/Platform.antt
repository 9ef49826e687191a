-- ===== src/Network/Game/Platform.antt =====
-- The network's loop with the callbacks of the game, on what Winsock and the pools answer.
use mmotcpfighter.Base.{
  ℕ, ◌+◌, ◌≤◌, ◌<◌, ◌≡◌, ◌≢◌, refl, sym, ap, ◌∙◌, Bool, List, Option, Outcome, ok, err, arith,
}
use mmotcpfighter.Ring.{buffer_size}
use mmotcpfighter.LinkedList.{Ptr, null}
use mmotcpfighter.World.{Server, SessionData, max_session}
use mmotcpfighter.World.Monad.{resume}
use mmotcpfighter.World.Frame.{Placed, Ends, faults, returns}
use mmotcpfighter.Contents.Players.Frames.{create_player-Ends, newcomer}
use mmotcpfighter.Network.Callbacks.{game}
use mmotcpfighter.Network.Game.{game-KeepsFrame}
use mmotcpfighter.Network.Sessions.Handles.{client_at}
use mmotcpfighter.Network.Sessions.Register.{entered, fresh_session}
use mmotcpfighter.Network.Transfer.{Segment, SendResult, WsaRecv}
use mmotcpfighter.Network.Transfer.Good.{KeepsToSegments}
use mmotcpfighter.Network.Loop.{SelectResult, ready, Answers, network_proc}
use mmotcpfighter.Network.Loop.Good.{IsGood}
use mmotcpfighter.Network.Loop.Makes.{Makes, fails, makes, set_at_other}
use mmotcpfighter.Network.Loop.Accept.{numbered}
use mmotcpfighter.Network.Loop.Select.{count, Promises}
use mmotcpfighter.Network.Loop.Ends.{ServedOrFaulted, network_proc_ends}

-- What is outside the program during one `SelectProc`: Winsock, the clock, the two pools and `rand()`.
pub record Platform : Type 0 where
  pub select : List ℕ → List ℕ → SelectResult
  pub accepted : Option ℕ
  pub accept_time : ℕ
  pub recv_time : ℕ → ℕ
  pub wsa_recv : ℕ → WsaRecv
  pub wsa_send : ℕ → List Segment → SendResult
  pub session_memory : Server → Ptr
  pub client_memory : Server → Ptr
  pub rand_y : ℕ
  pub rand_x : ℕ

abbrev pub game_answers : Platform → Answers
game_answers pl = record {
  select = pl.select;
  accepted = pl.accepted;
  memory = pl.session_memory;
  accept_time = pl.accept_time;
  recv_time = pl.recv_time;
  wsa_recv = pl.wsa_recv;
  wsa_send = pl.wsa_send;
  callbacks = λ s. game (pl.client_memory s) pl.rand_y pl.rand_x;
}

-- What is relied on of them: `select` returns no more than the number of sockets that it leaves in the two sets, `WSARecv`
-- keeps to its segments, and the memory that the pools hand out is not in use.
pub record IsHonest (pl : Platform) : Type 0 where
  pub counts :
      (read_set write_set : List ℕ) (n : ℕ) (readable writable : ℕ → Bool)
      → pl.select read_set write_set ≡ ready n readable writable
      → n ≤ count readable read_set + count writable write_set
  pub segments : (i : ℕ) → KeepsToSegments (pl.wsa_recv i)
  pub session_there : (s : Server) → pl.session_memory s ≢ null
  pub session_unused : (s : Server) → Placed s.session_num s (pl.session_memory s) → ⊥
  pub client_there : (s : Server) → pl.client_memory s ≢ null
  pub client_unused : (s : Server) (i : ℕ) → i < s.session_num → client_at s i ≢ pl.client_memory s

-- `CreatePlayer` makes a client, in any state in which its memory is not that of another.
game-Makes :
    (client : Ptr) (rand_y rand_x : ℕ) (s : Server) (handle id : ℕ)
    → client ≢ null
    → ((i : ℕ) → i < handle → client_at s i ≢ client)
    → Makes s handle ((game client rand_y rand_x).register_client handle id s)
unfolding game
game-Makes client rand_y rand_x s handle id there new =
    go _ (create_player-Ends client rand_y rand_x handle id s there)
  where
    go :
        (o : Outcome (Unit {0} × Server))
        → Ends (newcomer client rand_y rand_x handle id s) o
        → Makes s handle (resume (λ _ t. ok (client, t)) o)
    go (err f) (faults other) = fails other
    go (ok (u, t)) (returns k) = makes _ there refl new k

game-Promises : (pl : Platform) → IsHonest pl → Promises (game_answers pl)
game-Promises pl honest = record {
  counts = honest.counts;
  segments = honest.segments;
  memory_there = honest.session_there;
  memory_unused = honest.session_unused;
  frames = λ s. game-KeepsFrame (pl.client_memory s) pl.rand_y pl.rand_x;
  clients = λ s sock.
      let p : Ptr = pl.session_memory s in
      let u : Server = entered (numbered s) p sock s.next_id pl.accept_time in
      let same : (i : ℕ) → i < s.session_num → client_at u i ≡ client_at s i = λ i lt.
        ap (λ q. (u.sessions q).client)
          (set_at_other s.session_arr s.session_num i p (λ e. omega arith))
        ∙ ap (λ (x : SessionData). x.client)
            (set_at_other s.sessions p (s.session_arr i)
              (fresh_session (s.sessions p) sock s.next_id pl.accept_time)
              (λ e. honest.session_unused s (i, lt, e))) in
      game-Makes (pl.client_memory s) pl.rand_y pl.rand_x u s.session_num s.next_id
        (honest.client_there s) (λ i lt e. honest.client_unused s i lt (sym (same i lt) ∙ e));
}

-- The game's callbacks in `NetworkProc`, on platforms that can be relied on, from a good state: with fuel above `BUFFER_SIZE`
-- for the packets of a session and more rounds than `MAX_SESSION` it does not run out of fuel. It faults, or it returns
-- a good state in which every session that was reserved has been removed and all that are left are valid.
pub game-network_proc_ends :
    (fuel rounds listen : ℕ) (platforms : ℕ → Platform) (arr : ℕ → Ptr) (s : Server)
    → buffer_size < fuel
    → max_session < rounds
    → ((k : ℕ) → IsHonest (platforms k))
    → IsGood s
    → ServedOrFaulted (
        network_proc fuel rounds listen
          (λ k. game_answers (platforms k))
          (λ _. game null 0 0)
          arr
          s)
game-network_proc_ends fuel rounds listen platforms arr s enough enough_rounds honest g =
    network_proc_ends fuel rounds listen (λ k. game_answers (platforms k)) (λ _. game null 0 0)
      enough enough_rounds (λ k. game-Promises (platforms k) (honest k))
      (λ _. game-KeepsFrame null 0 0) arr s g
