-- ===== src/Base/Int.antt =====
-- Signed integers over the native numbers, under the library's names, and Go's int64 arithmetic.
use Prim.Native.Nat.{ℕ, suc, ◌+◌, ◌-◌, ◌%◌, ◌≤◌, ◌<◌}
use mathlib.Core.Path.{◌≡◌, refl}
use mathlib.Core.Bool.{Bool}
use native.Mathlib.Decide.{ℕ_discrete}
use native.Mathlib.Omega.{arith}
use downpeed_fluter.Base.Tests.{ltb, leb, ◌==◌, if◌then◌else◌}

-- `negsuc n` is -(n + 1).
pub data ℤ : Type 0 where
  pos : ℕ → ℤ
  negsuc : ℕ → ℤ

pub ℤ-discrete : Discrete ℤ
ℤ-discrete = hlevel ℕ_discrete

abbrev pub pos_part : ℤ → ℕ
pos_part (pos n) = n
pos_part (negsuc n) = 0

abbrev pub neg_part : ℤ → ℕ
neg_part (pos n) = 0
neg_part (negsuc n) = suc n

-- a - b, as an integer.
abbrev pub sub_ℕ : ℕ → ℕ → ℤ
sub_ℕ a b = if leb b a then pos (a - b) else negsuc (b - a - 1)

abbrev pub minus_one : ℤ
minus_one = negsuc 0

infix 50 ◌≤ℤ◌ ◌<ℤ◌
abbrev pub ◌≤ℤ◌ : ℤ → ℤ → Type 0
a ≤ℤ b = pos_part a + neg_part b ≤ pos_part b + neg_part a

abbrev pub ◌<ℤ◌ : ℤ → ℤ → Type 0
a <ℤ b = pos_part a + neg_part b < pos_part b + neg_part a

abbrev pub ltb_ℤ : ℤ → ℤ → Bool
ltb_ℤ a b = ltb (pos_part a + neg_part b) (pos_part b + neg_part a)

abbrev pub leb_ℤ : ℤ → ℤ → Bool
leb_ℤ a b = leb (pos_part a + neg_part b) (pos_part b + neg_part a)

abbrev pub eqb_ℤ : ℤ → ℤ → Bool
eqb_ℤ a b = (pos_part a + neg_part b) == (pos_part b + neg_part a)

-- 2 ^ 63 and 2 ^ 64.
abbrev pub int64_limit : ℕ
int64_limit = 9223372036854775808

abbrev pub int64_modulus : ℕ
int64_modulus = 18446744073709551616

-- The value that a bit pattern below 2 ^ 64 stands for.
abbrev pub of_bits : ℕ → ℤ
of_bits b = if ltb b int64_limit then pos b else negsuc (int64_modulus - 1 - b)

-- The int64 that an integer wraps round to, in two's complement.
unfoldable pub wrap64 : ℤ → ℤ
wrap64 (pos n) = of_bits (n % int64_modulus)
wrap64 (negsuc n) = of_bits (int64_modulus - 1 - n % int64_modulus)

infixl 65 ◌+64◌ ◌-64◌
unfoldable pub ◌+64◌ : ℤ → ℤ → ℤ
unfolding wrap64
a +64 b = wrap64 (sub_ℕ (pos_part a + pos_part b) (neg_part a + neg_part b))

unfoldable pub ◌-64◌ : ℤ → ℤ → ℤ
unfolding wrap64
a -64 b = wrap64 (sub_ℕ (pos_part a + neg_part b) (neg_part a + pos_part b))

-- Where the sum of two numbers fits, an int64 sum is the sum.
pub +64-pos : (a b : ℕ) → a + b < int64_limit → pos a +64 pos b ≡ pos (a + b)
unfolding ◌+64◌
+64-pos a b h = ground arith

-- Likewise for a difference of two numbers that is not negative.
pub -64-pos : (a b : ℕ) → b ≤ a → a < int64_limit → pos a -64 pos b ≡ pos (a - b)
unfolding ◌-64◌
-64-pos a b h k = ground arith

pub +64_overflow : pos 9223372036854775807 +64 pos 1 ≡ negsuc 9223372036854775807
unfolding ◌+64◌
+64_overflow = refl
