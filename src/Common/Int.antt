-- ===== src/Common/Int.antt =====
-- Signed machine integers: an integer and its two's complement pattern of a given width.
use Prim.Native.Nat.{ℕ, ◌-◌, ◌*◌, ◌%◌, ◌<◌}
use mathlib.Core.Path.{◌≡◌}
use native.Mathlib.Nat.{mod-eq_of_lt}
use native.Mathlib.Omega.{arith}
use lance_duckdb.Common.Tests.{ltb, if◌then◌else◌}

-- `negsuc n` is -(n + 1).
pub data ℤ : Type 0 where
  pos : ℕ → ℤ
  negsuc : ℕ → ℤ

-- A cast to the unsigned type of 2 * half values.
unfoldable pub to_word : ℕ → ℤ → ℕ
to_word half (pos n) = n % (2 * half)
to_word half (negsuc n) = 2 * half - 1 - n % (2 * half)

-- A cast of a pattern below 2 * half to the signed type.
unfoldable pub of_word : ℕ → ℕ → ℤ
of_word half w = if ltb w half then pos w else negsuc (2 * half - 1 - w)

-- The values of the signed type, from -half to half - 1.
abbrev pub IsSigned : ℕ → ℤ → Type 0
IsSigned half (pos n) = n < half
IsSigned half (negsuc n) = n < half

pub to_word-lt : (half : ℕ) (z : ℤ) → 0 < half → to_word half z < 2 * half
unfolding to_word
to_word-lt half (pos n) h = grind arith
to_word-lt half (negsuc n) h = grind arith

fits : (half n : ℕ) → n < half → n < 2 * half
fits half n h = omega arith

pub of_word-to_word : (half : ℕ) (z : ℤ) → IsSigned half z → of_word half (to_word half z) ≡ z
unfolding of_word to_word
of_word-to_word half (pos n) h = ground (arith, mod-eq_of_lt (fits half n h))
of_word-to_word half (negsuc n) h = ground (arith, mod-eq_of_lt (fits half n h))
