-- ===== src/Prelude/Words.antt =====
-- Machine integers: a `u64` is a number below 2 ^ 64, an `i64` is its two's complement bit pattern.
use Prim.Native.Nat.{ℕ, ◌+◌, ◌-◌, ◌%◌, ◌^◌, ◌≤◌, ◌<◌, min}
use mathlib.Core.Path.{◌≡◌}
use mathlib.Core.Bool.{Bool}
use native.Mathlib.Omega.{arith}
use grindvakt.Prelude.Tests.{ltb, leb}

abbrev pub u64_mod : ℕ
u64_mod = 2 ^ 64

-- `a + b` on `u64` in a build without overflow checks
unfoldable pub add_u64 : ℕ → ℕ → ℕ
add_u64 a b = (a + b) % u64_mod

-- `a.saturating_add(b)` on `u64`; `saturating_sub` is the subtraction of ℕ
unfoldable pub saturating_add : ℕ → ℕ → ℕ
saturating_add a b = min (a + b) (u64_mod - 1)

-- `a + b`, `a - b` on `i64` in a build without overflow checks
unfoldable pub add_i64 : ℕ → ℕ → ℕ
add_i64 a b = (a + b) % u64_mod

unfoldable pub sub_i64 : ℕ → ℕ → ℕ
sub_i64 a b = (a + u64_mod - b) % u64_mod

-- Patterns are ordered as the signed numbers that they stand for after a shift by 2 ^ 63.
abbrev pub biased : ℕ → ℕ
biased a = (a + 2 ^ 63) % u64_mod

-- `a < b` and `a <= b` on `i64`
unfoldable pub lt_i64 : ℕ → ℕ → Bool
lt_i64 a b = ltb (biased a) (biased b)

unfoldable pub le_i64 : ℕ → ℕ → Bool
le_i64 a b = leb (biased a) (biased b)

pub add_u64-eq : (a b : ℕ) → a + b < u64_mod → add_u64 a b ≡ a + b
unfolding add_u64
add_u64-eq a b h = omega arith

pub add_u64-le : (a b : ℕ) → add_u64 a b ≤ a + b
unfolding add_u64
add_u64-le a b = omega arith
