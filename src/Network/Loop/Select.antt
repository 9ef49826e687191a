-- ===== src/Network/Loop/Select.antt =====
-- `SelectProc` keeps the invariant, and looks at no more of its array than the batch has put there.
use mmotcpfighter.Base.{
  ℕ, zero, suc, ◌+◌, ◌-◌, ◌≤◌, ◌<◌, ◌≡◌, ◌≢◌, refl, ap, ap₂, ◌∙◌, Bool, true, false, List, [], ◌∷◌,
  ◌==◌, if◌then◌else◌, ne→not_==, Bool-cases, inl, inr, Outcome, ok, err, arith,
}
use mmotcpfighter.Ring.{buffer_size}
use mmotcpfighter.LinkedList.{Ptr, null}
use mmotcpfighter.World.{Server}
use mmotcpfighter.World.Monad.{Cmd, pure, ◌>>◌, resume, load_session}
use mmotcpfighter.World.Frame.{Placed}
use mmotcpfighter.Network.Sessions.Register.{entered}
use mmotcpfighter.Network.Transfer.{send_proc}
use mmotcpfighter.Network.Transfer.Good.{KeepsToSegments, recv_proc-Stays, send_proc-Stays}
use mmotcpfighter.Network.Loop.{
  fd_setsize, SelectResult, none_ready, select_failed, ready, Answers, Batch, accept_client,
  recv_client, select_from, after_select, select_proc,
}
use mmotcpfighter.Network.Loop.Frame.{KeepsFrame}
use mmotcpfighter.Network.Loop.Good.{
  IsGood, Grows, Grows-trans, Stays, breaks, Stays-refl, Stays-resume,
}
use mmotcpfighter.Network.Loop.Makes.{Makes}
use mmotcpfighter.Network.Loop.Accept.{numbered, accept_proc-Stays}

abbrev pub one_if : Bool → ℕ
one_if true = 1
one_if false = 0

-- How many of the sockets satisfy a test.
unfoldable pub count : (ℕ → Bool) → List ℕ → ℕ
count f [] = 0
count f (x ∷ xs) = one_if (f x) + count f xs

-- How many of the calls that `m` entries from `i` on may ask for are due.
unfoldable pub due : (ℕ → Bool) → (ℕ → Bool) → Server → (ℕ → Ptr) → ℕ → ℕ → ℕ
due readable writable s arr zero i = 0
due readable writable s arr (suc m) i =
    (one_if (readable (s.sessions (arr i)).client_sock)
      + one_if (writable (s.sessions (arr i)).client_sock))
    + due readable writable s arr m (i + 1)

-- What is relied on: of Winsock that `select` returns no more than the number of sockets that it leaves in the two
-- sets, and that `WSARecv` keeps to its segments; of the pools that the memory which they hand out is not in use; of
-- the callbacks that they keep to their frame.
pub record Promises (ans : Answers) : Type 0 where
  pub counts :
      (read_set write_set : List ℕ) (n : ℕ) (readable writable : ℕ → Bool)
      → ans.select read_set write_set ≡ ready n readable writable
      → n ≤ count readable read_set + count writable write_set
  pub segments : (i : ℕ) → KeepsToSegments (ans.wsa_recv i)
  pub memory_there : (s : Server) → ans.memory s ≢ null
  pub memory_unused : (s : Server) → Placed s.session_num s (ans.memory s) → ⊥
  pub frames : (s : Server) → KeepsFrame (ans.callbacks s)
  pub clients :
      (s : Server) (sock : ℕ)
      → Makes (entered (numbered s) (ans.memory s) sock s.next_id ans.accept_time) s.session_num (
          (ans.callbacks s).register_client s.session_num s.next_id
            (entered (numbered s) (ans.memory s) sock s.next_id ans.accept_time))

-- The `m` entries from `i` on are sessions.
abbrev pub AllPlaced : Server → (ℕ → Ptr) → ℕ → ℕ → Type 0
AllPlaced s arr m i = (k : ℕ) → i ≤ k → k < i + m → Placed s.session_num s (arr k)

pub AllPlaced-Grows :
    (s t : Server) (arr : ℕ → Ptr) (m i : ℕ) → Grows s t → AllPlaced s arr m i → AllPlaced t arr m i
AllPlaced-Grows s t arr m i grows there k le lt = (grows (arr k) (there k le lt)).0

-- The sockets of the sessions are the same after a command, and so is what is due.
pub due-Grows :
    (readable writable : ℕ → Bool) (s t : Server) (arr : ℕ → Ptr) (m i : ℕ)
    → Grows s t
    → AllPlaced s arr m i
    → due readable writable t arr m i ≡ due readable writable s arr m i
unfolding due
due-Grows readable writable s t arr zero i grows there = refl
due-Grows readable writable s t arr (suc m) i grows there =
    let same = (grows (arr i) (there i (omega arith) (omega arith))).1 in
    ap₂ ◌+◌ (ap (λ x. one_if (readable x) + one_if (writable x)) same) (
      due-Grows readable writable s t arr m (i + 1) grows
        (λ k le lt. there k (omega arith) (omega arith)))

pub not_null : (s : Server) (p : Ptr) → IsGood s → Placed s.session_num s p → p ≢ null
not_null s p g (i, lt, e) h = g.consistent.session_there i lt (e ∙ h)

module _ (fuel : ℕ) (enough : buffer_size < fuel) (ans : Answers) (promises : Promises ans)
    (readable writable : ℕ → Bool) where
  -- A call that is made if the socket is in the set, and lowers the count.
  counted_call :
      {A : Type 0} (m : Cmd A) (b : Bool) (left : ℕ) (s : Server)
      → IsGood s
      → Stays s (m s)
      → Stays s ((if b then m >> pure (left - 1) else pure left) s)
  counted_call m true left s g sm =
      Stays-resume s _ (m s) sm (λ a t e gt grows. Stays-refl (left - 1) gt)
  counted_call m false left s g sm = Stays-refl left g

  counted_result :
      {A : Type 0} (m : Cmd A) (b : Bool) (left left' : ℕ) (s t : Server)
      → (if b then m >> pure (left - 1) else pure left) s ≡ ok (left', t)
      → left' ≡ left - one_if b
  counted_result {A = A} m true left left' s t e = go (m s) e
    where
      go :
          (o : Outcome (A × Server))
          → resume (λ _. pure (left - 1)) o ≡ ok (left', t)
          → left' ≡ left - 1
      go (err f) h = absurd (ground arith)
      go (ok (a, u)) h = ground arith
  counted_result {A = A} m false left left' s t e = ground arith

  recv_client-Stays :
      (i : ℕ) (p : Ptr) (s : Server)
      → IsGood s
      → Placed s.session_num s p
      → Stays s (recv_client fuel ans i p s)
  unfolding recv_client
  recv_client-Stays i p s g there =
      recv_proc-Stays fuel (ans.callbacks s) (promises.frames s) enough p (not_null s p g there)
        (ans.recv_time i) (ans.wsa_recv i) s (promises.segments i) g there

  send_client-Stays :
      (i : ℕ) (p : Ptr) (s : Server)
      → IsGood s
      → Placed s.session_num s p
      → Stays s (send_proc (ans.wsa_send i) p s)
  send_client-Stays i p s g there =
      send_proc-Stays fuel (ans.callbacks s) (promises.frames s) enough p (not_null s p g there)
        (ans.wsa_send i) s g there

  -- The loop: where no more calls are left than are due for the entries that are sessions, it keeps the invariant.
  select_from-Stays :
      (arr : ℕ → Ptr) (n m i left : ℕ) (s : Server)
      → IsGood s
      → m ≤ n
      → AllPlaced s arr m i
      → left ≤ due readable writable s arr m i
      → Stays s (select_from fuel ans arr readable writable n i left s)
  unfolding select_from due load_session
  select_from-Stays arr zero m i left s g le there few = Stays-refl tt g
  select_from-Stays arr (suc n) zero i left s g le there few =
      let none : left ≡ 0 = omega arith in rw none (Stays-refl tt g)
  select_from-Stays arr (suc n) (suc m) i left s g le there few = elim (Bool-cases (left == 0)) [
    | inl none ↦ rw none (Stays-refl tt g)
    | inr some ↦
        let p : Ptr = arr i in
        let here = there i (omega arith) (omega arith) in
        rw (some, ne→not_== _ _ (not_null s p g here))
          (Stays-resume s _ _
            (counted_call (recv_client fuel ans i p) (readable (s.sessions p).client_sock) left s g
              (recv_client-Stays i p s g here))
            (λ left' t e gt grows.
              let (here_t, same) = grows p here in
              let e' =
                counted_result (recv_client fuel ans i p) (readable (s.sessions p).client_sock) left
                  left' s t e in
              rw (ne→not_== _ _ (not_null t p gt here_t)) (
                Stays-resume t _ _
                  (counted_call (send_proc (ans.wsa_send i) p) (writable (t.sessions p).client_sock)
                    left' t gt (send_client-Stays i p t gt here_t))
                  (λ left'' u h gu more.
                    let h' =
                      counted_result (send_proc (ans.wsa_send i) p)
                        (writable (t.sessions p).client_sock) left' left'' t u h in
                    let w : one_if (writable (t.sessions p).client_sock)
                        ≡ one_if (writable (s.sessions p).client_sock) =
                      ap (λ x. one_if (writable x)) same in
                    let rest : AllPlaced s arr m (i + 1) =
                      λ k a b. there k (omega arith) (omega arith) in
                    let both = Grows-trans s t u grows more in
                    select_from-Stays arr n m (i + 1) left'' u gu (omega arith)
                      (AllPlaced-Grows s u arr m (i + 1) both rest)
                      (omega (arith, due-Grows readable writable s u arr m (i + 1) both rest))))))
  ]

-- A batch that `NetworkProc` has gathered: its entries are sessions, no more than there is room for, and what may be due
-- for the sockets in the two sets is due for the listening socket or for an entry.
pub record IsBatch (listen : ℕ) (s : Server) (b : Batch) : Type 0 where
  pub begun : 0 < b.sock_count
  pub bounded : b.sock_count ≤ fd_setsize
  pub entries : AllPlaced s b.sessions (b.sock_count - 1) 0
  pub few :
      (readable writable : ℕ → Bool)
      → count readable b.read_set + count writable b.write_set
        ≤ one_if (readable listen) + due readable writable s b.sessions (b.sock_count - 1) 0

module _ (fuel : ℕ) (enough : buffer_size < fuel) (listen : ℕ) (ans : Answers)
    (promises : Promises ans) where
  accept_client-Stays : (s : Server) → IsGood s → Stays s (accept_client ans s)
  unfolding accept_client
  accept_client-Stays s g =
      accept_proc-Stays (ans.callbacks s) ans.accepted (ans.memory s) ans.accept_time s g
        (promises.memory_there s) (promises.memory_unused s) (promises.clients s)

  after_select-Stays :
      (s : Server) (b : Batch) (result : SelectResult)
      → IsGood s
      → IsBatch listen s b
      → ((n : ℕ) (readable writable : ℕ → Bool)
          → result ≡ ready n readable writable
          → n ≤ count readable b.read_set + count writable b.write_set)
      → Stays s (after_select fuel listen ans b.sessions result s)
  unfolding after_select
  after_select-Stays s b none_ready g batch counts = Stays-refl tt g
  after_select-Stays s b select_failed g batch counts = breaks (λ h. cc)
  after_select-Stays s b (ready n readable writable) g batch counts =
      Stays-resume s _ _
        (counted_call fuel enough ans promises readable writable (accept_client ans)
          (readable listen) n s g (accept_client-Stays s g))
        (λ left t e gt grows.
          let h =
            counted_result fuel enough ans promises readable writable (accept_client ans)
              (readable listen) n left s t e in
          let m : ℕ = b.sock_count - 1 in
          select_from-Stays fuel enough ans promises readable writable b.sessions (fd_setsize - 1) m
            0 left t gt (omega (arith, batch.bounded))
            (AllPlaced-Grows s t b.sessions m 0 grows batch.entries)
            (omega (
              arith,
              counts n readable writable refl,
              batch.few readable writable,
              due-Grows readable writable s t b.sessions m 0 grows batch.entries,
            )))

  pub select_proc-Stays :
      (s : Server) (b : Batch)
      → IsGood s
      → IsBatch listen s b
      → Stays s (select_proc fuel listen ans b s)
  unfolding select_proc
  select_proc-Stays s b g batch =
      after_select-Stays s b _ g batch (promises.counts b.read_set b.write_set)
