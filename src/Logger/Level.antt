-- ===== src/Logger/Level.antt =====
-- The log level: it stays one of the three, and it cannot be raised.
use mmotcpfighter.Base.{◌≡◌, refl, ℤ, ◌-ℤ◌, ok, err, null_pointer, out_of_bounds, arith}
use mmotcpfighter.Logger.{
  Logger, debug, system, error, set_log_level, increase_log_level, decrease_log_level,
}
use mmotcpfighter.Logger.Line.{IsLevel}

-- From one of the three levels `SET_LOG_LEVEL`, whatever it is given, and `DECREASE_LOG_LEVEL` lead to one of the three, the second to
-- the next lower one if there is one.
pub log_level_in_range :
    (level : ℤ) (l : Logger)
    → IsLevel l.log_level
    → IsLevel (set_log_level level l).log_level
      × IsLevel (decrease_log_level l).1.log_level
      × ((decrease_log_level l).0 ≡ (decrease_log_level l).1.log_level)
unfolding set_log_level decrease_log_level ◌-ℤ◌
log_level_in_range level l h = ground arith

-- `INCREASE_LOG_LEVEL` writes through a null pointer at the lowest of the three levels, to the address 1 at the next, and
-- leaves the highest as it is: it raises none.
pub increase_log_level_faults :
    (l : Logger)
    → (l.log_level ≡ debug → increase_log_level l ≡ err null_pointer)
      × (l.log_level ≡ system → increase_log_level l ≡ err out_of_bounds)
      × (l.log_level ≡ error → increase_log_level l ≡ ok (error, l))
unfolding increase_log_level
increase_log_level_faults l = (λ e. rw e refl, λ e. rw e refl, λ e. ground arith)
