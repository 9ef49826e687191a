-- ===== src/Logger/Loop.antt =====
-- `LOG` ends, and its line is whole, however long it is.
use native.Mathlib.Nat.{pow-suc}
use mmotcpfighter.Base.{
  ℕ, zero, suc, ◌*◌, ◌^◌, ◌≤◌, ◌<◌, ◌≡◌, ◌≢◌, refl, ap, sym, Bool, true, false, List, [], ◌∷◌, ◌++◌,
  ltb, ◌≤ℤ◌, ◌<ℤ◌, ltb_ℤ, Outcome, ok, err, ◌>>=◌, Bool-cases, inl, inr, arith, if◌then◌else◌,
  out_of_bounds, lt→ltb,
}
use mmotcpfighter.Logger.{
  Logger, Texts, Entry, console, error, local_log_buf_size, filtered, grown_entry, log_loop, log,
  size_limit,
}
use native.Mathlib.Nat.{pow-le-pow_right}
use mmotcpfighter.Logger.Line.{
  AreShort, line_of, room_for, IsLevel, Pass, whole, short, log_pass-Pass,
}

-- `LOG` has returned, with the whole line at the end of the file, and a buffer that has been doubled at most `k` times.
abbrev pub Writes : Texts → ℕ → Entry → Logger → Outcome Logger → Type 0
Writes tx k e l o =
    (l' : Logger) × (before : List (List ℕ × List ℕ)) × (t : ℕ) × (c : ℕ) × (o ≡ ok l')
    × (l.cur_size ≤ l'.cur_size)
    × (l'.cur_size ≤ l.cur_size * 2 ^ k)
    × (l'.file_lines ≡ before ++ ((e.head, line_of tx e t c) ∷ []))

doubled : (a p : ℕ) → a * 2 * p ≡ a * (p * 2)
doubled a p = grind arith

at_least : (a p : ℕ) → 1 ≤ p → a ≤ a * p
at_least a p h = grind arith

times_pow : (a k : ℕ) → a ≤ a * 2 ^ k
times_pow a k =
    let one : 1 ≤ 2 ^ k = pow-le-pow_right (omega arith) {i = 0} (omega arith) in
    at_least a (2 ^ k) one

module _ (tx : Texts) (shorts : AreShort tx) where
  -- What follows a pass.
  after_pass :
      (k : ℕ) (e : Entry) (l : Logger) (o : Outcome (Bool × Logger))
      (retry : Logger → Outcome Logger)
      → Pass tx e l o
      → ((l' : Logger)
          → l'.cur_size ≡ l.cur_size
          → l.cur_size ≤ room_for tx e
          → Writes tx k e l
              (if ltb (l'.cur_size * 2) size_limit then retry l' else err out_of_bounds))
      → Writes tx k e l (
          o >>= (λ r.
            if r.0
            then ok r.1
            else if ltb (r.1.cur_size * 2) size_limit
            then retry r.1
            else err out_of_bounds))
  after_pass k e l (ok (b, l')) retry (whole t c size same file) h =
      (l', l.file_lines, t, c, refl, omega arith, omega (arith, times_pow l.cur_size k), file)
  after_pass k e l (ok (b, l')) retry (short size same file long) h = h l' size long
  after_pass k e l (err f) retry pass h = elim pass [ ]

  -- And what follows the message that the buffer has grown.
  after_grown :
      (k : ℕ) (e : Entry) (l l₀ : Logger) (o : Outcome Logger) (rest : Logger → Outcome Logger)
      → ((l'' : Logger) × (o ≡ ok l'') × (l''.cur_size ≡ l₀.cur_size))
      → ((l'' : Logger) → l''.cur_size ≡ l₀.cur_size → Writes tx k e l (rest l''))
      → Writes tx k e l (o >>= rest)
  after_grown k e l l₀ o rest (l'', done, size) h = rw done (h l'' size)

  log_loop-Writes :
      (k fuel : ℕ) (e : Entry) (l : Logger)
      → e.output ≢ console
      → IsLevel e.level
      → local_log_buf_size ≤ l.cur_size
      → room_for tx e < l.cur_size * 2 ^ k
      → l.cur_size * 2 ^ k < size_limit
      → k < fuel
      → Writes tx k e l (log_loop fuel tx e l)
  unfolding log_loop filtered
  log_loop-Writes k zero e l to_file leveled large room small enough = absurd (omega arith)
  log_loop-Writes zero (suc fuel) e l to_file leveled large room small enough =
      after_pass zero e l _ _ (log_pass-Pass tx e shorts to_file leveled l)
        (λ l' size long. absurd (omega arith))
  log_loop-Writes (suc k) (suc fuel) e l to_file leveled large room small enough =
      after_pass (suc k) e l _ _ (log_pass-Pass tx e shorts to_file leveled l) (λ l' size long.
        let n : ℕ = l'.cur_size * 2 in
        let twice : l.cur_size * 2 ^ suc k ≡ n * 2 ^ k =
          rw (pow-suc 2 k, size) (sym (doubled l.cur_size (2 ^ k))) in
        let l₀ : Logger = record l' { cur_size = n; log_buf = [] } in
        let fits : ltb n size_limit ≡ true = lt→ltb n size_limit (omega (arith, times_pow n k)) in
        rw fits (
          after_grown (suc k) e l l₀ _ (log_loop fuel tx e)
            (elim (Bool-cases (ltb_ℤ error l'.log_level)) [
              | inl quiet ↦ rw quiet (l₀, refl, refl)
              | inr heard ↦
                  let (l'', before, t, c, done, kept, most, file) =
                    log_loop-Writes zero fuel (grown_entry tx n) l₀ (λ h. omega arith)
                      (omega arith, omega arith) (omega arith)
                      (omega (arith, shorts.system, shorts.grown n)) (omega (arith, times_pow n k))
                      (omega arith) in
                  rw heard (l'', done, omega arith)
            ])
            (λ l'' kept.
              let scale : l''.cur_size * 2 ^ k ≡ n * 2 ^ k = ap (λ a. a * 2 ^ k) kept in
              let (l₃, before, t, c, done, grown, most, file) =
                log_loop-Writes k fuel e l'' to_file leveled (omega arith) (omega arith)
                  (omega arith) (omega arith) in
              (l₃, before, t, c, done, omega arith, omega arith, file))))

-- `LOG` to a file, of a level that the logger lets through, returns: where the buffer has to be doubled at most `k` times for the line,
-- without overflow of its size, fuel above `k` is enough. The file then ends with the whole line, however often the buffer was too
-- small, and the buffer has been doubled at most `k` times. Of a lower level it changes nothing.
pub log_lem :
    (tx : Texts) (k fuel : ℕ) (e : Entry) (l : Logger)
    → AreShort tx
    → e.output ≢ console
    → IsLevel e.level
    → local_log_buf_size ≤ l.cur_size
    → room_for tx e < l.cur_size * 2 ^ k
    → l.cur_size * 2 ^ k < size_limit
    → k < fuel
    → (l.log_level ≤ℤ e.level → Writes tx k e l (log fuel tx e l))
      × (e.level <ℤ l.log_level → log fuel tx e l ≡ ok l)
unfolding log
log_lem tx k fuel e l shorts to_file leveled large room small enough = (
  λ through.
      let heard : ltb_ℤ e.level l.log_level ≡ false = ground arith in
      rw heard (log_loop-Writes tx shorts k fuel e l to_file leveled large room small enough),
  λ below. let quiet : ltb_ℤ e.level l.log_level ≡ true = ground arith in rw quiet refl,
)
