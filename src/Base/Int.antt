-- ===== src/Base/Int.antt =====
-- Signed integers over the native numbers, under the library's names, and their bit patterns.
-- Sums, differences and orders go through the two parts of an integer, which `omega` reads.
use Prim.Native.Nat.{ℕ, suc, ◌+◌, ◌-◌, ◌*◌, ◌/◌, ◌%◌, ◌^◌, ◌≤◌, ◌<◌}
use mathlib.Core.Path.{◌≡◌}
use mathlib.Core.Bool.{Bool, ◌&&◌}
use native.Mathlib.Omega.{arith}
use mmotcpfighter.Base.Tests.{ltb, leb, ◌==◌, if◌then◌else◌}

-- `negsuc n` is -(n + 1).
pub data ℤ : Type 0 where
  pos : ℕ → ℤ
  negsuc : ℕ → ℤ

abbrev pub pos_part : ℤ → ℕ
pos_part (pos n) = n
pos_part (negsuc n) = 0

abbrev pub neg_part : ℤ → ℕ
neg_part (pos n) = 0
neg_part (negsuc n) = suc n

-- a - b, as an integer.
abbrev pub sub_ℕ : ℕ → ℕ → ℤ
sub_ℕ a b = if leb b a then pos (a - b) else negsuc (b - a - 1)

infixl 65 ◌+ℤ◌ ◌-ℤ◌
infixl 70 ◌*ℤ◌
infix 50 ◌≤ℤ◌ ◌<ℤ◌
unfoldable pub ◌+ℤ◌ : ℤ → ℤ → ℤ
a +ℤ b = sub_ℕ (pos_part a + pos_part b) (neg_part a + neg_part b)

unfoldable pub ◌-ℤ◌ : ℤ → ℤ → ℤ
a -ℤ b = sub_ℕ (pos_part a + neg_part b) (neg_part a + pos_part b)

unfoldable pub ◌*ℤ◌ : ℤ → ℤ → ℤ
a *ℤ b =
    sub_ℕ (pos_part a * pos_part b + neg_part a * neg_part b)
      (pos_part a * neg_part b + neg_part a * pos_part b)

abbrev pub ◌≤ℤ◌ : ℤ → ℤ → Type 0
a ≤ℤ b = pos_part a + neg_part b ≤ pos_part b + neg_part a

abbrev pub ◌<ℤ◌ : ℤ → ℤ → Type 0
a <ℤ b = pos_part a + neg_part b < pos_part b + neg_part a

abbrev pub ltb_ℤ : ℤ → ℤ → Bool
ltb_ℤ a b = ltb (pos_part a + neg_part b) (pos_part b + neg_part a)

abbrev pub leb_ℤ : ℤ → ℤ → Bool
leb_ℤ a b = leb (pos_part a + neg_part b) (pos_part b + neg_part a)

abbrev pub eq_ℤ : ℤ → ℤ → Bool
eq_ℤ a b = (pos_part a == pos_part b) && (neg_part a == neg_part b)

-- `/` of C++ between `int`s, which goes towards zero, by a positive number.
unfoldable pub div_ℤ : ℤ → ℕ → ℤ
div_ℤ (pos n) d = pos (n / d)
div_ℤ (negsuc n) d = sub_ℕ 0 ((n + 1) / d)

-- `abs`
abbrev pub nat_abs : ℤ → ℕ
nat_abs (pos n) = n
nat_abs (negsuc n) = suc n

-- The pattern of an integer modulo `m`, a power of two, and the integer that a pattern stands for.
abbrev pub pattern_of : ℕ → ℤ → ℕ
pattern_of m (pos n) = n % m
pattern_of m (negsuc n) = m - 1 - n % m

abbrev pub signed_of : ℕ → ℕ → ℤ
signed_of m b = if ltb (b + b) m then pos b else negsuc (m - 1 - b)

-- `SHORT` and `CHAR`: the patterns, and what a conversion to the type keeps of an integer.
unfoldable pub short_pattern : ℤ → ℕ
short_pattern = pattern_of 65536

unfoldable pub of_short_pattern : ℕ → ℤ
of_short_pattern = signed_of 65536

unfoldable pub to_short : ℤ → ℤ
unfolding short_pattern of_short_pattern
to_short z = of_short_pattern (short_pattern z)

unfoldable pub char_pattern : ℤ → ℕ
char_pattern = pattern_of 256

unfoldable pub to_char : ℤ → ℤ
unfolding char_pattern
to_char z = signed_of 256 (char_pattern z)

-- The same for `int`, and the `int` that a `DWORD` is converted to.
unfoldable pub to_int : ℤ → ℤ
to_int z = signed_of (2 ^ 32) (pattern_of (2 ^ 32) z)

abbrev pub of_dword : ℕ → ℤ
of_dword = signed_of (2 ^ 32)

-- `%` of C++ between `int`s, by a positive number: the result has the sign of the dividend.
unfoldable pub rem_ℤ : ℤ → ℕ → ℤ
rem_ℤ (pos n) d = pos (n % d)
rem_ℤ (negsuc n) d = sub_ℕ 0 ((n + 1) % d)

abbrev pub IsInt : ℤ → Type 0
IsInt z = (negsuc 2147483647 ≤ℤ z) × (z ≤ℤ pos 2147483647)

abbrev pub IsShort : ℤ → Type 0
IsShort z = (negsuc 32767 ≤ℤ z) × (z ≤ℤ pos 32767)

pub +ℤ_parts :
    (a b : ℤ)
    → pos_part (a +ℤ b) + neg_part a + neg_part b ≡ neg_part (a +ℤ b) + pos_part a + pos_part b
unfolding ◌+ℤ◌
+ℤ_parts a b = ground arith

pub -ℤ_parts :
    (a b : ℤ)
    → pos_part (a -ℤ b) + neg_part a + pos_part b ≡ neg_part (a -ℤ b) + pos_part a + neg_part b
unfolding ◌-ℤ◌
-ℤ_parts a b = ground arith

pub eq_of_parts : (a b : ℤ) → pos_part a + neg_part b ≡ pos_part b + neg_part a → a ≡ b
eq_of_parts a b h = ground arith

pub short_pattern-lt : (z : ℤ) → short_pattern z < 65536
unfolding short_pattern
short_pattern-lt (pos n) = omega arith
short_pattern-lt (negsuc n) = omega arith

pub char_pattern-lt : (z : ℤ) → char_pattern z < 256
unfolding char_pattern
char_pattern-lt (pos n) = omega arith
char_pattern-lt (negsuc n) = omega arith

-- A `SHORT` survives the way through its pattern.
pub of_short_pattern-short_pattern : (z : ℤ) → IsShort z → of_short_pattern (short_pattern z) ≡ z
unfolding short_pattern of_short_pattern
of_short_pattern-short_pattern (pos n) h = ground arith
of_short_pattern-short_pattern (negsuc n) h = ground arith

pub to_short_id : (z : ℤ) → IsShort z → to_short z ≡ z
unfolding to_short
to_short_id z h = of_short_pattern-short_pattern z h

pub to_int_id : (z : ℤ) → IsInt z → to_int z ≡ z
unfolding to_int
to_int_id (pos n) h = ground arith
to_int_id (negsuc n) h = ground arith

pub ruleset int_laws = (arith, +ℤ_parts, -ℤ_parts, eq_of_parts)
