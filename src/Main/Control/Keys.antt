-- ===== src/Main/Control/Keys.antt =====
-- What the lock of the keys keeps off, and how the time since the start is told.
use mmotcpfighter.Base.{
  ℤ, true, Outcome, Bool-cases, inl, inr, if◌then◌else◌, err, refl, ◌||◌, ◌==◌, Bool,
}
use mmotcpfighter.Base.{ℕ, ◌+◌, ◌-◌, ◌*◌, ◌/◌, ◌^◌, ◌≤◌, ◌<◌, ◌≡◌, ◌≢◌, refl, false, ok, err, arith}
use mmotcpfighter.Logger.{Logger}
use mmotcpfighter.Logger.{increase_log_level}
use mmotcpfighter.Main.Control.{Control, elapsed, press}

-- The days, hours, minutes and seconds are those of the whole seconds between the two times, and each is in its range.
pub elapsed_lem :
    (now start : ℕ)
    → start ≤ now
    → now < 2 ^ 64
    → (((elapsed now start).day * 24 + (elapsed now start).hour) * 60 + (elapsed now start).min)
            * 60
          + (elapsed now start).second
        ≡ (now - start) / 10000000
      × ((elapsed now start).hour < 24)
      × ((elapsed now start).min < 60)
      × ((elapsed now start).second < 60)
unfolding elapsed
elapsed_lem now start le small = omega arith

-- The keys that the lock lets through.
abbrev pub passes_lock : ℕ → Bool
passes_lock key = (key == b'k') || ((key == b'j') || (key == b'D'))

-- The same, with the keys locked.
abbrev pub lock : Control → Control
lock c = record c { control_mode = false }

abbrev pub unlock : Control → Control
unlock c = record c { control_mode = true }

abbrev pub lock_after : Outcome Control → Outcome Control
lock_after (ok c) = ok (lock c)
lock_after (err f) = err f

raise_locked :
    (now start : ℕ) (c : Control)
    → press now start b'k' (lock c) ≡ lock_after (press now start b'k' (unlock c))
unfolding press
raise_locked now start c = after _ refl
  where
    after :
        (o : Outcome (ℤ × Logger))
        → increase_log_level c.logger ≡ o
        → press now start b'k' (lock c) ≡ lock_after (press now start b'k' (unlock c))
    after (err f) e = rw e refl
    after (ok r) e = rw e refl

-- What the lock keeps off, for every key but u and U, which unlock: k, j and D do what they do where the keys are not locked, and
-- any other key changes nothing.
pub press-lock :
    (now start key : ℕ) (c : Control)
    → key ≢ b'u'
    → key ≢ b'U'
    → press now start key (lock c)
      ≡ (if passes_lock key then lock_after (press now start key (unlock c)) else ok (lock c))
unfolding press
press-lock now start key c no_u no_U = elim (Bool-cases (key == b'k')) [
  | inl k ↦ let e : key ≡ b'k' = ground arith in rw e (raise_locked now start c)
  | inr not_k ↦ elim (Bool-cases (key == b'j')) [
    | inl j ↦ let e : key ≡ b'j' = ground arith in rw e refl
    | inr not_j ↦ elim (Bool-cases (key == b'D')) [
      | inl d ↦ let e : key ≡ b'D' = ground arith in rw e refl
      | inr not_d ↦ ground arith
    ]
  ]
]
