-- ===== src/Network/Game/Sample.antt =====
-- A good state with two sessions, of which the second is reserved for removal, and a platform that can be relied on, for the
-- tests.
use mmotcpfighter.Base.{
  ℕ, zero, suc, ◌+◌, ◌-◌, ◌≤◌, ◌<◌, refl, subst, Bool, false, some, List, [], ◌∷◌, ◌==◌, ltb, leb,
  ◌||◌, if◌then◌else◌, arith, Bool-cases, inl, inr,
}
use mmotcpfighter.Memory.{Block}
use mmotcpfighter.World.{Server}
use mmotcpfighter.World.Frame.{Reserved}
use mmotcpfighter.World.Sample.{session_with, server_with}
use mmotcpfighter.Network.Sessions.{fresh_ring}
use mmotcpfighter.Network.Sessions.Handles.{Consistent, client_at}
use mmotcpfighter.Network.Transfer.{Segment, RecvResult, received, recv_failed, sent, recv_buffers}
use mmotcpfighter.Network.Transfer.Buffers.{Receives, is_in_segments, total_size}
use mmotcpfighter.Network.Loop.{SelectResult, none_ready, select_failed, ready}
use mmotcpfighter.Network.Loop.Good.{IsGood}
use mmotcpfighter.Network.Loop.Select.{count}
use mmotcpfighter.Network.Game.Platform.{Platform, IsHonest}

-- The session at `p` has the client at `p`, and stands at the place `p - 1`.
abbrev pub two : Server
two = record (server_with fresh_ring) {
  session_num = 2;
  session_arr = λ i. if ltb i 2 then i + 1 else 0;
  sessions =
      λ p. record (session_with fresh_ring) { client = p; is_valid = if p == 1 then 1 else 0 };
  clients = λ p. record ((server_with fresh_ring).clients p) { handle = p - 1 };
  discon = 2 ∷ [];
}

pub two-Consistent : Consistent two
two-Consistent = record {
  bounded = omega arith;
  session_there = λ i lt. ground arith;
  client_there = λ i lt. ground arith;
  agree = λ i lt. ground arith;
}

pub two-Reserved : Reserved 2 two (2 ∷ [])
two-Reserved = record {
  once = (refl, tt);
  off = λ p there. ground arith;
  listed = λ i lt off. ground arith;
  placed = λ p there. (1, omega arith, ground arith);
  live = λ i on. (i, ground arith, refl);
}

pub two-IsGood : IsGood two
two-IsGood = record {
  consistent = two-Consistent;
  reserved = two-Reserved;
  rings = λ p there. omega arith;
}

-- Memory above all that the first `n` entries stand for.
abbrev pub above : (ℕ → ℕ) → ℕ → ℕ
above f zero = 1
above f (suc n) = f n + above f n

above-there : (f : ℕ → ℕ) (n : ℕ) → 1 ≤ above f n
above-there f zero = omega arith
above-there f (suc n) = let rest = above-there f n in omega arith

above-entry : (f : ℕ → ℕ) (n i : ℕ) → i < n → f i < above f n
above-entry f zero i lt = absurd (omega arith)
above-entry f (suc n) i lt = elim (Bool-cases (i == n)) [
  | inl same ↦ let there = above-there f n in ground arith
  | inr other ↦ let rest = above-entry f n i (ground arith) in omega arith
]

-- `select` finds what is readable among the sockets 5, that of the server, and 0, and nothing writable.
abbrev readable : ℕ → Bool
readable q = (q == 5) || (q == 0)

abbrev found : List ℕ → List ℕ → SelectResult
found read_set write_set =
    ready (count readable read_set + count (λ _. false) write_set) readable (λ _. false)

abbrev IsCounted : List ℕ → List ℕ → SelectResult → Type 0
IsCounted read_set write_set none_ready = Unit {0}
IsCounted read_set write_set select_failed = Unit {0}
IsCounted read_set write_set (ready n r w) = n ≤ count r read_set + count w write_set

-- Every connection that waits sends three bytes, as far as there is room, and they are all 1.
abbrev filled : Block → List Segment → Block
filled b segments = record b { byte = λ i. if is_in_segments i segments then 1 else b.byte i }

abbrev three : Block → List Segment → RecvResult
three b segments =
    received (if leb 3 (total_size segments) then 3 else total_size segments) (filled b segments)

abbrev DoesReceive : Block → List Segment → RecvResult → Type 0
DoesReceive b segments (received n b') = Receives b segments n b'
DoesReceive b segments (recv_failed _) = Unit {0}

three-Receives : (b : Block) (segments : List Segment) → DoesReceive b segments (three b segments)
three-Receives b segments = record {
  same_size = refl;
  same = λ i out. rw out refl;
  at_most = ground arith;
}

abbrev pub platform : Platform
platform = record {
  select = found;
  accepted = some 77;
  accept_time = 8;
  recv_time = λ i. 9;
  wsa_recv = λ i. three;
  wsa_send = λ i segments. sent 1;
  session_memory = λ s. above s.session_arr s.session_num;
  client_memory = λ s. above (client_at s) s.session_num;
  rand_y = 3;
  rand_x = 4;
}

pub platform-IsHonest : IsHonest platform
platform-IsHonest = record {
  counts = λ read_set write_set n r w e. subst (IsCounted read_set write_set) e (omega arith);
  segments = λ i. record {
    apply = λ ring n b v e.
        subst (DoesReceive ring.buffer (recv_buffers ring)) e
          (three-Receives ring.buffer (recv_buffers ring));
  };
  session_there = λ s e. let there = above-there s.session_arr s.session_num in omega arith;
  session_unused =
      λ s (i, lt, e). let over = above-entry s.session_arr s.session_num i lt in omega arith;
  client_there = λ s e. let there = above-there (client_at s) s.session_num in omega arith;
  client_unused =
      λ s i lt e. let over = above-entry (client_at s) s.session_num i lt in omega arith;
}
