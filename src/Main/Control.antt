-- ===== src/Main/Control.antt =====
-- `ServerControl` of main.cpp, the thread that reads the keyboard: what each key does. What it prints is the reports below.
pub mod Keys
use mmotcpfighter.Base.{
  ℕ, ◌+◌, ◌-◌, ◌*◌, ◌/◌, ◌%◌, ◌^◌, Bool, true, false, List, [], ◌∷◌, ◌++◌, ◌==◌, ◌&&◌, ◌||◌,
  if◌then◌else◌, ℤ, Outcome, ok, ◌>>=◌,
}
use mmotcpfighter.Logger.{Logger, increase_log_level, decrease_log_level}

-- The time since the process began, in days, hours, minutes and seconds.
pub record Elapsed : Type 0 where
  pub day : ℕ
  pub hour : ℕ
  pub min : ℕ
  pub second : ℕ

-- `now` and `start` are 64-bit counts of 100 nanoseconds.
unfoldable pub elapsed : ℕ → ℕ → Elapsed
elapsed now start =
    let seconds = (now + 2 ^ 64 - start) % 2 ^ 64 / 10000 / 1000 in
    let minutes = seconds / 60 in
    let hours = minutes / 60 in
    record { day = hours / 24; hour = hours % 24; min = minutes % 60; second = seconds % 60 }

-- What is printed: the help, that the keys are locked, a log level, the status (without the counts that follow the time).
pub data Report : Type 0 where
  help : Report
  locked : Report
  level : ℤ → Report
  status : Elapsed → Report

pub record Control : Type 0 where
  pub control_mode : Bool
  pub shut_down : Bool
  pub logger : Logger
  pub reports : List Report

abbrev pub say : Report → Control → Control
say r c = record c { reports = c.reports ++ (r ∷ []) }

abbrev pub is_key : ℕ → ℕ → ℕ → Bool
is_key key small large = (key == small) || (key == large)

-- Lines 87 to 94, then 97 to 104.
unfoldable pub lock_keys : ℕ → Control → Control
lock_keys key c =
    let unlocked =
      if is_key key b'u' b'U' then say help (record c { control_mode = true }) else c in
    let shut =
      if is_key key b'l' b'L' && unlocked.control_mode
      then say locked (record unlocked { control_mode = false })
      else unlocked in
    if is_key key b'q' b'Q' && shut.control_mode then record shut { shut_down = true } else shut

-- The tests as they are written: `&&` binds tighter than `||`.
unfoldable pub raise_key : ℕ → Control → Outcome Control
raise_key key c =
    let raise : Outcome Control = do
      (new, l) ← increase_log_level c.logger
      ok (say (level new) (record c { logger = l }))
    in if (key == b'k') || ((key == b'K') && c.control_mode) then raise else ok c

unfoldable pub lower_key : ℕ → Control → Control
lower_key key c =
    let (new, l) = decrease_log_level c.logger in
    if (key == b'j') || ((key == b'J') && c.control_mode)
    then say (level new) (record c { logger = l })
    else c

unfoldable pub status_key : ℕ → ℕ → ℕ → Control → Control
status_key now start key c =
    if (key == b'D') || ((key == b'd') && c.control_mode)
    then say (status (elapsed now start)) c
    else c

-- One round of the loop, for a key that has been read.
unfoldable pub press : ℕ → ℕ → ℕ → Control → Outcome Control
unfolding lock_keys raise_key lower_key status_key
press now start key c = do
  c' ← raise_key key (lock_keys key c)
  ok (status_key now start key (lower_key key c'))

-- The loop, for the keys that are read, until `g_bShutDown` is set.
pub server_control : (ℕ → ℕ) → ℕ → List ℕ → Control → Outcome Control
server_control clock start [] c = ok c
server_control clock start (key ∷ keys) c =
    let go_on : Outcome Control = do
      c' ← press (clock 0) start key c
      server_control (λ n. clock (n + 1)) start keys c'
    in if c.shut_down then ok c else go_on
