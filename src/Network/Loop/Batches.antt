-- ===== src/Network/Loop/Batches.antt =====
-- `NetworkProc`: it ends, and keeps the invariant.
use mmotcpfighter.Base.{
  ℕ, zero, suc, ◌+◌, ◌-◌, ◌≤◌, ◌<◌, ◌≡◌, ◌≢◌, refl, ap, ap₂, ◌∙◌, Bool, List, ◌∷◌, ◌==◌, ltb, leb,
  lt→ltb, ne→not_==, Bool-cases, inl, inr, Outcome, ok, err, Fault, out_of_fuel, arith,
}
use mmotcpfighter.Ring.{buffer_size, get_use_size}
use mmotcpfighter.LinkedList.{Ptr}
use mmotcpfighter.World.{Server, max_session}
use mmotcpfighter.World.Monad.{resume, set_at, load_session}
use mmotcpfighter.World.Frame.{Placed}
use mmotcpfighter.World.Session.{session_at}
use mmotcpfighter.World.Session.Frames.{set_at_self}
use mmotcpfighter.Network.Loop.{
  fd_setsize, Answers, Batch, new_batch, add_session, enter_batch, flush_batch, batches_from,
}
use mmotcpfighter.Network.Loop.Good.{IsGood, Grows, Grows-refl, Grows-trans, Stays, breaks, stays}
use mmotcpfighter.Network.Loop.Makes.{set_at_other}
use mmotcpfighter.Network.Loop.Select.{
  one_if, count, due, due-Grows, AllPlaced-Grows, Promises, AllPlaced, not_null, IsBatch,
  select_proc-Stays,
}

IsBatch-Grows :
    (listen : ℕ) (s t : Server) (b : Batch) → Grows s t → IsBatch listen s b → IsBatch listen t b
IsBatch-Grows listen s t b grows batch = record {
  begun = batch.begun;
  bounded = batch.bounded;
  entries = AllPlaced-Grows s t b.sessions (b.sock_count - 1) 0 grows batch.entries;
  few = λ readable writable. omega (
    arith,
    batch.few readable writable,
    due-Grows readable writable s t b.sessions (b.sock_count - 1) 0 grows batch.entries,
  );
}

pub new_batch-IsBatch :
    (listen : ℕ) (s : Server) (arr : ℕ → Ptr) → IsBatch listen s (new_batch listen arr)
unfolding new_batch count due
new_batch-IsBatch listen s arr = record {
  begun = omega arith;
  bounded = omega arith;
  entries = λ k a b. absurd (omega arith);
  few = λ readable writable. omega arith;
}

module _ (readable writable : ℕ → Bool) (s : Server) where
  abbrev own : Ptr → ℕ
  own p =
      one_if (readable (s.sessions p).client_sock) + one_if (writable (s.sessions p).client_sock)

  due-same :
      (f g : ℕ → Ptr) (m i : ℕ)
      → ((k : ℕ) → i ≤ k → k < i + m → f k ≡ g k)
      → due readable writable s f m i ≡ due readable writable s g m i
  unfolding due
  due-same f g zero i h = refl
  due-same f g (suc m) i h =
      ap₂ ◌+◌ (ap own (h i (omega arith) (omega arith)))
        (due-same f g m (i + 1) (λ k a b. h k (omega arith) (omega arith)))

  due-last :
      (f : ℕ → Ptr) (m i : ℕ)
      → due readable writable s f (suc m) i ≡ due readable writable s f m i + own (f (i + m))
  unfolding due
  due-last f zero i = ap (λ k. own (f k) + 0) {x = i} {y = i + 0} (omega arith) ∙ omega arith
  due-last f (suc m) i =
      let e : own (f (i + 1 + m)) ≡ own (f (i + suc m)) = ap (λ k. own (f k)) (omega arith) in
      omega (arith, due-last f m (i + 1))

-- Another session in a batch that is not full.
module _ (listen : ℕ) (s : Server) (p : Ptr) (b : Batch) (batch : IsBatch listen s b)
    (there : Placed s.session_num s p) (open_ : b.sock_count < fd_setsize) where
  abbrev last : ℕ
  last = b.sock_count - 1

  abbrev more : Batch
  more = add_session p (s.sessions p) b

  entry_other : (k : ℕ) → k < last → set_at b.sessions last p k ≡ b.sessions k
  entry_other k lt = set_at_other b.sessions last k p (λ e. omega arith)

  more-AllPlaced : AllPlaced s (set_at b.sessions last p) (last + 1) 0
  more-AllPlaced k le lt = elim (Bool-cases (k == last)) [
    | inl own ↦ let e : k ≡ last = ground arith in rw (e, set_at_self b.sessions last p) there
    | inr other ↦
        let below : k < last = ground arith in
        rw (entry_other k below) (batch.entries k (omega arith) (omega arith))
  ]

  due-more :
      (readable writable : ℕ → Bool)
      → due readable writable s (set_at b.sessions last p) (last + 1) 0
        ≡ due readable writable s b.sessions last 0 + own readable writable s p
  due-more readable writable =
      let arr' : ℕ → Ptr = set_at b.sessions last p in
      ap (λ m. due readable writable s arr' m 0) {x = last + 1} {y = suc last} (omega arith)
      ∙ due-last readable writable s arr' last 0
      ∙ ap₂ ◌+◌
          (due-same readable writable s arr' b.sessions last 0
            (λ k a lt. entry_other k (omega arith)))
          (ap (own readable writable s)
            (ap arr' {x = 0 + last} {y = last} (omega arith) ∙ set_at_self b.sessions last p))

  few_more :
      (readable writable : ℕ → Bool) (write_set : List ℕ)
      → count writable write_set
        ≤ one_if (writable (s.sessions p).client_sock) + count writable b.write_set
      → count readable ((s.sessions p).client_sock ∷ b.read_set) + count writable write_set
        ≤ one_if (readable listen)
          + due readable writable s (set_at b.sessions last p) (b.sock_count + 1 - 1) 0
  unfolding count
  few_more readable writable write_set h =
      let e : b.sock_count + 1 - 1 ≡ last + 1 = omega (arith, batch.begun) in
      rw e (omega (arith, due-more readable writable, batch.few readable writable))

  more-IsBatch : IsBatch listen s more
  unfolding add_session count
  more-IsBatch = record {
    begun = omega arith;
    bounded = omega arith;
    entries = λ k le lt. more-AllPlaced k le (omega (arith, batch.begun));
    few = λ readable writable. elim (Bool-cases (ltb 0 (get_use_size (s.sessions p).send_rb))) [
      | inl waiting ↦
          rw waiting
            (few_more readable writable ((s.sessions p).client_sock ∷ b.write_set) (omega arith))
      | inr empty ↦ rw empty (few_more readable writable b.write_set (omega arith))
    ];
  }

  -- Neither the `__debugbreak()` nor the end of the array is met.
  enter_batch-more : IsGood s → enter_batch p b s ≡ ok (more, s)
  unfolding enter_batch load_session
  enter_batch-more g =
      let begun = batch.begun in
      rw
        (
          ne→not_== _ _ (not_null s p g there),
          ne→not_== (b.sock_count - 1) 63 (λ e. omega arith),
          lt→ltb (b.sock_count - 1) 63 (omega arith),
        )
        refl

-- How the gathering of sessions ends: by a fault, which is not that of too little fuel, or with a batch that is not full.
pub data Gathers (listen : ℕ) (s : Server) : Outcome ((Batch × ℕ) × Server) → Type 0 where
  breaks_off : {f : Fault} → f ≢ out_of_fuel → Gathers listen s (err f)
  gathers :
      {b : Batch} {k : ℕ} {t : Server}
      → IsGood t
      → Grows s t
      → IsBatch listen t b
      → b.sock_count < fd_setsize
      → Gathers listen s (ok ((b, k), t))

Gathers-trans :
    (listen : ℕ) (s t : Server) (o : Outcome ((Batch × ℕ) × Server))
    → Grows s t
    → Gathers listen t o
    → Gathers listen s o
Gathers-trans listen s t (err f) grows (breaks_off h) = breaks_off h
Gathers-trans listen s t (ok ((b, k), u)) grows (gathers g more batch room) =
    gathers g (Grows-trans s t u grows more) batch room

module _ (fuel : ℕ) (enough : buffer_size < fuel) (listen : ℕ) (answers : ℕ → Answers)
    (promises : (k : ℕ) → Promises (answers k)) where
  flushed :
      (s : Server) (b : Batch) (k : ℕ) (o : Outcome (Unit {0} × Server))
      → Stays s o
      → Gathers listen s (resume (λ _ t. ok ((new_batch listen b.sessions, k + 1), t)) o)
  unfolding new_batch
  flushed s b k (err f) (breaks h) = breaks_off h
  flushed s b k (ok (u, t)) (stays g grows) =
      gathers g grows (new_batch-IsBatch listen t b.sessions) (omega arith)

  flush_batch-Gathers :
      (s : Server) (b : Batch) (k : ℕ)
      → IsGood s
      → IsBatch listen s b
      → Gathers listen s (flush_batch fuel listen answers b k s)
  unfolding flush_batch
  flush_batch-Gathers s b k g batch = elim (Bool-cases (leb fd_setsize b.sock_count)) [
    | inl full ↦ rw full (
        flushed s b k _ (select_proc-Stays fuel enough listen (answers k) (promises k) s b g batch))
    | inr room ↦ rw room (gathers g (Grows-refl s) batch (ground arith))
  ]

  -- The rest of the loop, from the batch that a round leaves.
  then_rest :
      (rounds i : ℕ) (s : Server) (o : Outcome ((Batch × ℕ) × Server))
      → ((s : Server) (b : Batch) (k : ℕ)
          → IsGood s
          → IsBatch listen s b
          → b.sock_count < fd_setsize
          → Gathers listen s (batches_from fuel listen answers rounds i b k s))
      → Gathers listen s o
      → Gathers listen s (resume (λ r. batches_from fuel listen answers rounds i r.0 r.1) o)
  then_rest rounds i s (err f) ih (breaks_off h) = breaks_off h
  then_rest rounds i s (ok ((b, k), t)) ih (gathers g grows batch room) =
      Gathers-trans listen s t _ grows (ih t b k g batch room)

  pub batches_from-Gathers :
      (rounds i : ℕ)
      → i ≤ max_session
      → max_session < rounds + i
      → (s : Server) (b : Batch) (k : ℕ) → IsGood s
      → IsBatch listen s b
      → b.sock_count < fd_setsize
      → Gathers listen s (batches_from fuel listen answers rounds i b k s)
  unfolding batches_from session_at
  batches_from-Gathers zero i le lt s b k g batch room = absurd (omega arith)
  batches_from-Gathers (suc rounds) i le lt s b k g batch room =
      elim (Bool-cases (ltb i s.session_num)) [
        | inr over ↦ rw over (gathers g (Grows-refl s) batch room)
        | inl next ↦
            let below : i < s.session_num = ground arith in
            let small : i < max_session = omega (arith, g.consistent.bounded) in
            let there : Placed s.session_num s (s.session_arr i) = (i, below, refl) in
            rw
              (
                next,
                lt→ltb _ _ small,
                enter_batch-more listen s (s.session_arr i) b batch there room g,
              )
              (then_rest rounds (i + 1) s _
                (batches_from-Gathers rounds (i + 1) (omega arith) (omega arith))
                (flush_batch-Gathers s (more listen s (s.session_arr i) b batch there room) k g
                  (more-IsBatch listen s (s.session_arr i) b batch there room)))
      ]
