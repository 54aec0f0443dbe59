-- ===== src/Base/Int.antt =====
-- Go's int64 as an integer, and its conversion to and from uint64.
use Prim.Native.Nat.{ℕ, ◌-◌, ◌<◌}
use mathlib.Core.Path.{◌≡◌}
use native.Mathlib.Omega.{arith}
use pgmigrate.Base.Tests.{ltb, if◌then◌else◌}

-- `negsuc n` is -(n + 1).
pub data ℤ : Type 0 where
  pos : ℕ → ℤ
  negsuc : ℕ → ℤ

abbrev pub IsInt64 : ℤ → Type 0
IsInt64 (pos n) = n < 9223372036854775808
IsInt64 (negsuc n) = n < 9223372036854775808

-- uint64(x): the two's complement bit pattern.
unfoldable pub u64_of_int : ℤ → ℕ
u64_of_int (pos n) = n
u64_of_int (negsuc n) = 18446744073709551615 - n

-- int64(v).
unfoldable pub int_of_u64 : ℕ → ℤ
int_of_u64 v = if ltb v 9223372036854775808 then pos v else negsuc (18446744073709551615 - v)

pub u64_of_int-lt : (x : ℤ) → IsInt64 x → u64_of_int x < 18446744073709551616
unfolding u64_of_int
u64_of_int-lt (pos n) h = omega arith
u64_of_int-lt (negsuc n) h = omega arith

pub int_of_u64-u64_of_int : (x : ℤ) → IsInt64 x → int_of_u64 (u64_of_int x) ≡ x
unfolding u64_of_int int_of_u64
int_of_u64-u64_of_int (pos n) h = ground arith
int_of_u64-u64_of_int (negsuc n) h = ground arith
