-- ===== src/Ring/Queue.antt =====
-- A bounded queue of bytes, oldest first: what a client of the ring may rely on. A request that
-- does not fit is refused whole, with the answer 0.
use mmotcpfighter.Base.{ℕ, ◌-◌, List, [], ◌∷◌, ◌++◌, ltb, if◌then◌else◌, length, take, drop}
use mmotcpfighter.Ring.{buffer_size}

unfoldable pub push : List ℕ → List ℕ → ℕ × List ℕ
push q xs = if ltb (buffer_size - length q) (length xs) then (0, q) else (length xs, q ++ xs)

-- How many bytes a request for `n` gets, which they are, and what is left behind them.
unfoldable pub granted : List ℕ → ℕ → ℕ
granted q n = if ltb (length q) n then 0 else n

unfoldable pub front : List ℕ → ℕ → List ℕ
unfolding granted
front q n = take (granted q n) q

unfoldable pub pop : List ℕ → ℕ → List ℕ
unfolding granted
pop q n = drop (granted q n) q

-- What a client can ask for.
pub data Op : Type 0 where
  put : List ℕ → Op
  get : ℕ → Op
  look : ℕ → Op

-- Each answer is a size and the bytes that were handed over.
unfoldable pub run : List ℕ → List Op → List (ℕ × List ℕ)
unfolding push granted front pop
run q [] = []
run q (put xs ∷ ops) = let (n, q') = push q xs in (n, []) ∷ run q' ops
run q (get n ∷ ops) = (granted q n, front q n) ∷ run (pop q n) ops
run q (look n ∷ ops) = (granted q n, front q n) ∷ run q ops
