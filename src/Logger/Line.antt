-- ===== src/Logger/Line.antt =====
-- A pass of the loop of `LOG`: the whole line is written, or the buffer was too small.
use mmotcpfighter.Base.{
  ℕ, zero, suc, ◌+◌, ◌-◌, ◌%◌, ◌^◌, ◌≤◌, ◌≡◌, ◌≢◌, refl, ap, ◌∙◌, Bool, true, false, ◌&&◌, List, [],
  ◌∷◌, ◌++◌, ltb, ne→not_==, length, length-append, take, ℤ, ◌≤ℤ◌, leb_ℤ, Outcome, ok, Bool-cases,
  inl, inr, arith,
}
use mmotcpfighter.Logger.{
  Logger, Texts, Entry, console, error, debug, add_message, add_level, log_pass,
}

-- The texts that do not depend on the arguments of `LOG` are short: the time has 24 characters, the level and the count no more than
-- 24.
pub record AreShort (tx : Texts) : Type 0 where
  pub some_time : (t : ℕ) → 1 ≤ length (tx.time_text t)
  pub time : (t : ℕ) → length (tx.time_text t) ≤ 30
  pub level : (z : ℤ) (c : ℕ) → length (tx.level_text z c) ≤ 30
  pub grown : (n : ℕ) → length (tx.grown_text n) ≤ 100
  pub system : length (tx.head_text tx.system_head) ≤ 20

-- The line of an entry, with what the clock and the count give.
abbrev pub line_of : Texts → Entry → ℕ → ℕ → List ℕ
line_of tx e t c = ((tx.head_text e.head ++ tx.time_text t) ++ tx.level_text e.level c) ++ e.message

-- More than the length of any such line.
abbrev pub room_for : Texts → Entry → ℕ
room_for tx e = length (tx.head_text e.head) + 60 + length e.message

abbrev pub IsLevel : ℤ → Type 0
IsLevel z = (debug ≤ℤ z) × (z ≤ℤ error)

-- How a pass of the loop ends: with the whole line at the end of the file, or without, where the buffer is too small.
pub data Pass (tx : Texts) (e : Entry) (l : Logger) : Outcome (Bool × Logger) → Type 0 where
  whole :
      {l' : Logger} (t c : ℕ)
      → l'.cur_size ≡ l.cur_size
      → l'.log_level ≡ l.log_level
      → l'.file_lines ≡ l.file_lines ++ ((e.head, line_of tx e t c) ∷ [])
      → Pass tx e l (ok (true, l'))
  short :
      {l' : Logger}
      → l'.cur_size ≡ l.cur_size
      → l'.log_level ≡ l.log_level
      → l'.file_lines ≡ l.file_lines
      → l.cur_size ≤ room_for tx e
      → Pass tx e l (ok (false, l'))

length-take : {A : Type 0} (n : ℕ) (xs : List A) → n ≤ length xs → length (take n xs) ≡ n
length-take zero xs h = refl
length-take (suc n) [] h = absurd (omega arith)
length-take (suc n) (x ∷ xs) h = ap suc (length-take n xs (omega arith))

module _ (tx : Texts) (e : Entry) (shorts : AreShort tx) (to_file : e.output ≢ console)
    (leveled : IsLevel e.level) (l : Logger) where
  abbrev head : List ℕ
  head = tx.head_text e.head

  abbrev time : List ℕ
  time = tx.time_text l.clock_reads

  abbrev count : ℕ
  count = (l.log_count + 1) % 2 ^ 32

  abbrev level : List ℕ
  level = tx.level_text e.level count

  timed : length (head ++ time) ≡ length head + length time
  timed = length-append head time

  levelled : length ((head ++ time) ++ level) ≡ length (head ++ time) + length level
  levelled = length-append (head ++ time) level

  -- Once the name fits.
  message_Pass :
      (l' : Logger)
      → l'.cur_size ≡ l.cur_size
      → l'.log_level ≡ l.log_level
      → l'.file_lines ≡ l.file_lines
      → l'.log_buf ≡ (head ++ time) ++ level
      → Pass tx e l (add_message e l')
  unfolding add_message
  message_Pass l' size same file buf =
      elim (Bool-cases (ltb (length l'.log_buf + length e.message) l'.cur_size)) [
        | inl fits ↦
            rw (fits, ne→not_== _ _ to_file)
              (whole l.clock_reads count size same (
                ap (λ x. x ++ ((e.head, l'.log_buf ++ e.message) ∷ [])) file
                ∙ ap (λ x. l.file_lines ++ ((e.head, x ++ e.message) ∷ [])) buf))
        | inr full ↦
            let long : l'.cur_size ≤ length l'.log_buf + length e.message = ground arith in
            let sized : length l'.log_buf ≡ length ((head ++ time) ++ level) = ap length buf in
            rw full (
              short size same file (
                omega
                  (arith, timed, levelled, shorts.time l.clock_reads, shorts.level e.level count)))
      ]

  -- The logger after the time, and after the level.
  abbrev at_time : Logger
  at_time = record l { clock_reads = l.clock_reads + 1; log_buf = head ++ time }

  abbrev at_level : Logger
  at_level = record at_time { log_count = count; log_buf = (head ++ time) ++ level }

  level_Pass : Pass tx e l (add_level tx e at_time)
  unfolding add_level
  level_Pass =
      let valid : (leb_ℤ debug e.level && leb_ℤ e.level error) ≡ true = ground arith in
      elim (Bool-cases (ltb (length (head ++ time) + length level) l.cur_size)) [
        | inl fits ↦ rw (valid, fits) (message_Pass at_level refl refl refl refl)
        | inr full ↦
            let long : l.cur_size ≤ length (head ++ time) + length level = ground arith in
            rw (valid, full)
              (short refl refl refl
                (omega (arith, timed, shorts.time l.clock_reads, shorts.level e.level count)))
      ]

  pub log_pass-Pass : Pass tx e l (log_pass tx e l)
  unfolding log_pass
  log_pass-Pass = elim (Bool-cases (ltb (length head) l.cur_size)) [
    | inl fits ↦
        let h : ltb (0 + length head) l.cur_size ≡ true = ground arith in
        elim (Bool-cases (ltb (length head + length time) l.cur_size)) [
          | inl room ↦ rw (h, room) level_Pass
          | inr full ↦
              let long : l.cur_size ≤ length head + length time = ground arith in
              rw (h, full) (short refl refl refl (omega (arith, shorts.time l.clock_reads)))
        ]
    | inr long ↦
        let h : ltb (0 + length head) l.cur_size ≡ false = ground arith in
        let over : l.cur_size ≤ length head = ground arith in
        let cut : length (take (l.cur_size - 1) head) ≡ l.cur_size - 1 =
          length-take (l.cur_size - 1) head (omega arith) in
        let full : ltb (length (take (l.cur_size - 1) head) + length time) l.cur_size ≡ false =
          ground (arith, shorts.some_time l.clock_reads) in
        rw (h, full) (short refl refl refl (omega arith))
  ]
