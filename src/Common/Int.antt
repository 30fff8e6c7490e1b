-- ===== src/Common/Int.antt =====
-- Go's `int` and `int64` as signed integers over the native numbers, with their two's complement
-- bit patterns.
use nestory.Common.Tests.{ltb, if◌then◌else◌}
use Prim.Native.Nat.{ℕ, ◌-◌, ◌%◌, ◌^◌, ◌<◌}
use mathlib.Core.Path.{◌≡◌}
use native.Mathlib.Omega.{arith}

-- `negsuc n` is -(n + 1).
pub data ℤ : Type 0 where
  pos : ℕ → ℤ
  negsuc : ℕ → ℤ

-- the values of a 64-bit signed integer
abbrev pub IsInt64 : ℤ → Type 0
IsInt64 (pos n) = n < 2 ^ 63
IsInt64 (negsuc n) = n < 2 ^ 63

-- the conversion `uint64(x)`
unfoldable pub to_uint64 : ℤ → ℕ
to_uint64 (pos n) = n % 2 ^ 64
to_uint64 (negsuc n) = 2 ^ 64 - 1 - n % 2 ^ 64

-- the conversion `int64(x)` of a 64-bit unsigned integer
unfoldable pub of_uint64 : ℕ → ℤ
of_uint64 x = if ltb x (2 ^ 63) then pos x else negsuc (2 ^ 64 - 1 - x)

pub of_uint64-to_uint64 : (x : ℤ) → IsInt64 x → of_uint64 (to_uint64 x) ≡ x
unfolding of_uint64 to_uint64
of_uint64-to_uint64 (pos n) h = ground arith
of_uint64-to_uint64 (negsuc n) h = ground arith

pub to_uint64-lt : (x : ℤ) → to_uint64 x < 2 ^ 64
unfolding to_uint64
to_uint64-lt (pos n) = omega arith
to_uint64-lt (negsuc n) = omega arith
