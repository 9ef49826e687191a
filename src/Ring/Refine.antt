-- ===== src/Ring/Refine.antt =====
-- A valid ring answers as the bounded queue of its contents, call by call and over any sequence
-- of calls.
use mmotcpfighter.Base.{
  ℕ, ◌-◌, ◌≤◌, ◌<◌, ◌≡◌, refl, sym, List, [], ◌∷◌, length, arith, ltb, ok, Outcome, ◌>>=◌,
  Bool-cases, inl, inr, ltb→lt, take_of_append, drop_of_append,
}
use mmotcpfighter.Memory.{Block, bytes, of_list, new_block}
use mmotcpfighter.Memory.Laws.{length-bytes, bytes-of_list}
use mmotcpfighter.Ring.{Ring, buffer_size, get_use_size, get_free_size, enqueue, dequeue, peek}
use mmotcpfighter.Ring.Valid.{IsValid, contents, length-contents, use-add-free}
use mmotcpfighter.Ring.Fifo.{enqueue-Put, Got, dequeue-Got}
use mmotcpfighter.Ring.Queue
use mmotcpfighter.Ring.Queue.{Op, put, get, look}

-- More than the free size: `Enqueue` returns 0 and changes nothing.
pub enqueue_full :
    (r : Ring) (src : Block) (n : ℕ) → get_free_size r < n → enqueue r src n ≡ ok (0, r)
unfolding enqueue
enqueue_full r src n h = ground arith

pub dequeue_short :
    (r : Ring) (dest : Block) (n : ℕ) → get_use_size r < n → dequeue r dest n ≡ ok (0, r, dest)
unfolding dequeue
dequeue_short r dest n h = ground arith

peek_short : (r : Ring) (dest : Block) (n : ℕ) → get_use_size r < n → peek r dest n ≡ ok (0, dest)
unfolding peek
peek_short r dest n h = ground arith

free-eq : {r : Ring} → IsValid r → get_free_size r ≡ buffer_size - length (contents r)
free-eq {r} v = omega (arith, use-add-free v, length-contents r)

-- On a valid ring and a source that holds the bytes, `Enqueue` does not fault, returns what the
-- bounded queue returns and leaves a valid ring with the contents of the queue: all of the bytes
-- appended, or, where they do not fit, nothing changed.
pub enqueue_refines :
    {r : Ring} (src : Block) (n : ℕ)
    → IsValid r
    → n ≤ src.size
    → (r' : Ring) × (enqueue r src n ≡ ok ((Queue.push (contents r) (bytes src 0 n)).0, r'))
      × IsValid r'
      × (contents r' ≡ (Queue.push (contents r) (bytes src 0 n)).1)
unfolding Queue.push
enqueue_refines {r} src n v there = elim (Bool-cases (ltb (get_free_size r) n)) [
  | inl full ↦
      rw (length-bytes src 0 n, ← free-eq v, full)
        (r, enqueue_full r src n (ltb→lt _ _ full), v, refl)
  | inr fits ↦
      let (r', e, p) = enqueue-Put src n v there (ground arith) in
      rw (length-bytes src 0 n, ← free-eq v, fits) (r', e, p.valid, p.appended)
]

granted-length : (q : List ℕ) (n : ℕ) → n ≤ length q → Queue.granted q n ≡ n
unfolding Queue.granted
granted-length q n h = ground arith

granted_short : (q : List ℕ) (n : ℕ) → length q < n → Queue.granted q n ≡ 0
unfolding Queue.granted
granted_short q n h = ground arith

-- What `dequeue` and `peek` share: the block `d` begins with what the queue grants, and is the
-- target behind it.
pub record Handed (q : List ℕ) (n : ℕ) (dest d : Block) : Type 0 where
  pub front : bytes d 0 (Queue.granted q n) ≡ Queue.front q n
  pub behind : (i : ℕ) → Queue.granted q n ≤ i → d.byte i ≡ dest.byte i

module _ {r : Ring} (dest : Block) (n : ℕ) (v : IsValid r) where
  Got-Handed :
      {r' : Ring} {d : Block}
      → n ≤ get_use_size r
      → Got r dest 0 n r' d
      → Handed (contents r) n dest d × (contents r' ≡ Queue.pop (contents r) n)
  unfolding Queue.front Queue.pop
  Got-Handed {r'} {d} h g =
      let e = granted-length (contents r) n (omega (arith, length-contents r)) in
      (
        record {
          front =
              rw (e, g.split)
                (sym (take_of_append n (bytes d 0 n) (contents r') (length-bytes d 0 n)));
          behind = λ i le. g.same i (omega (arith, e));
        },
        rw (e, g.split) (sym (drop_of_append n (bytes d 0 n) (contents r') (length-bytes d 0 n))),
      )

  none-Handed :
      get_use_size r < n → Handed (contents r) n dest dest × (contents r ≡ Queue.pop (contents r) n)
  unfolding Queue.front Queue.pop
  none-Handed h =
      let e = granted_short (contents r) n (omega (arith, length-contents r)) in
      (record { front = rw e; behind = λ i le. refl }, rw e)

  module _ (there : n ≤ dest.size) where
    -- On a valid ring and a target with space for `n` bytes, `Dequeue` does not fault, returns what
    -- the bounded queue grants (`n`, or 0 where fewer wait), writes exactly those bytes, the oldest, to
    -- the front of the target, and leaves a valid ring with the rest.
    pub dequeue_refines :
        (r' : Ring) × (d : Block) × (dequeue r dest n ≡ ok (Queue.granted (contents r) n, r', d))
        × IsValid r'
        × Handed (contents r) n dest d
        × (contents r' ≡ Queue.pop (contents r) n)
    dequeue_refines = elim (Bool-cases (ltb (get_use_size r) n)) [
      | inl short ↦
          let h = ltb→lt _ _ short in
          let e = granted_short (contents r) n (omega (arith, length-contents r)) in
          (r, dest, rw e (dequeue_short r dest n h), v, (none-Handed h).0, (none-Handed h).1)
      | inr filled ↦
          let h : n ≤ get_use_size r = ground arith in
          let e = granted-length (contents r) n (omega (arith, length-contents r)) in
          let (r', d, took, _, g) = dequeue-Got dest n v there h in
          (r', d, rw e took, g.valid, (Got-Handed h g).0, (Got-Handed h g).1)
    ]

    -- On a valid ring and a target with space for `n` bytes, `Peek` does not fault, and returns and
    -- writes what the bounded queue grants: `n` and the oldest bytes, or 0 and nothing.
    pub peek_refines :
        (d : Block) × (peek r dest n ≡ ok (Queue.granted (contents r) n, d))
        × Handed (contents r) n dest d
    peek_refines = elim (Bool-cases (ltb (get_use_size r) n)) [
      | inl short ↦
          let h = ltb→lt _ _ short in
          let e = granted_short (contents r) n (omega (arith, length-contents r)) in
          (dest, rw e (peek_short r dest n h), (none-Handed h).0)
      | inr filled ↦
          let h : n ≤ get_use_size r = ground arith in
          let e = granted-length (contents r) n (omega (arith, length-contents r)) in
          let (r', d, _, looked, g) = dequeue-Got dest n v there h in
          (d, rw e looked, (Got-Handed h g).0)
    ]

-- The calls of a client, each with its own memory, and what it sees of each.
pub run : Ring → List Op → Outcome (List (ℕ × List ℕ))
run r [] = ok []
run r (put xs ∷ ops) = do
  (n, r') ← enqueue r (of_list xs) (length xs)
  rest ← run r' ops
  ok ((n, []) ∷ rest)
run r (get n ∷ ops) = do
  (k, r', d) ← dequeue r (new_block n) n
  rest ← run r' ops
  ok ((k, bytes d 0 k) ∷ rest)
run r (look n ∷ ops) = do
  (k, d) ← peek r (new_block n) n
  rest ← run r ops
  ok ((k, bytes d 0 k) ∷ rest)

-- No sequence of calls on a valid ring faults, or tells it from the bounded queue of its contents.
pub run_refines :
    (ops : List Op) {r : Ring} → IsValid r → run r ops ≡ ok (Queue.run (contents r) ops)
unfolding run Queue.run
run_refines [] v = refl
run_refines (put xs ∷ ops) {r} v =
    let (r', e, v', c) = enqueue_refines (of_list xs) (length xs) v (omega arith) in
    rw (e, run_refines ops v', c, bytes-of_list xs)
run_refines (get n ∷ ops) {r} v =
    let (r', d, e, v', handed, c) = dequeue_refines (new_block n) n v (omega arith) in
    rw (e, run_refines ops v', c, handed.front)
run_refines (look n ∷ ops) {r} v =
    let (d, e, handed) = peek_refines (new_block n) n v (omega arith) in
    rw (e, run_refines ops v, handed.front)
