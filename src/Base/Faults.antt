-- ===== src/Base/Faults.antt =====
-- The outcome of code that can stop the process. A fault is a value, and `do` chains outcomes.
use mathlib.Core.Bool.{Bool, true, false}
use mathlib.Core.Logic.{◌≢◌}
use native.Mathlib.Omega.{arith}
use mmotcpfighter.Base.Tests.{if◌then◌else◌}

-- `debug_break` is `__debugbreak()`, `thrown` an exception that nothing catches, `out_of_bounds` an
-- access outside a block of memory and `null_pointer` one through a null pointer (both undefined
-- behaviour in C++), and `out_of_fuel` a loop that was given too few rounds.
pub data Fault : Type 0 where
  debug_break thrown out_of_bounds null_pointer out_of_fuel : Fault

pub data Outcome {ℓ} (A : Type ℓ) : Type ℓ where
  err : Fault → Outcome A
  ok : A → Outcome A

-- Stops with the fault where the test fails.
abbrev pub require : Bool → Fault → Outcome (Unit {0})
require passed fault = elim passed [ true ↦ ok tt | false ↦ err fault ]

module _ {ℓ κ} {A : Type ℓ} {B : Type κ} where
  infixl 5 ◌>>=◌ ◌>>◌
  abbrev pub ◌>>=◌ : Outcome A → (A → Outcome B) → Outcome B
  err fault >>= rest = err fault
  ok value >>= rest = rest value

  abbrev pub ◌>>◌ : Outcome A → Outcome B → Outcome B
  first >> rest = first >>= (λ _. rest)

-- The outcome is not that the fuel ran out.
pub record Settles {A : Type 0} (o : Outcome A) : Type 0 where
  pub apply : o ≢ err out_of_fuel

module _ {A : Type 0} where
  pub Settles-ok : (a : A) → Settles (ok a)
  Settles-ok a = record { apply = λ h. cc }

  pub Settles-err : (f : Fault) → f ≢ out_of_fuel → Settles {A = A} (err f)
  Settles-err f other = record { apply = λ h. other (cc) }

  pub debug_break-Settles : Settles {A = A} (err debug_break)
  debug_break-Settles = Settles-err debug_break (λ h. cc)

  pub Settles-if :
      (b : Bool) (o p : Outcome A) → Settles o → Settles p → Settles (if b then o else p)
  Settles-if true o p so sp = so
  Settles-if false o p so sp = sp

pub Settles-bind :
    {A B : Type 0} (o : Outcome A) (rest : A → Outcome B)
    → Settles o
    → ((a : A) → Settles (rest a))
    → Settles (o >>= rest)
Settles-bind (err f) rest so sr = record { apply = λ h. so.apply (ground arith) }
Settles-bind (ok a) rest so sr = sr a

pub ruleset settling = (Settles-ok, Settles-if, Settles-bind)
