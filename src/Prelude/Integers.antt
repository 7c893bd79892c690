-- ===== src/Prelude/Integers.antt =====
-- Go's int as an integer, and its conversions to and from an int32, which is its 32 bits.
use Prim.Native.Nat.{ℕ, ◌-◌, ◌%◌}
use white_noise.Prelude.Tests.{ltb, if◌then◌else◌}

pub data ℤ : Type 0 where
  pos negsuc : ℕ → ℤ

abbrev pub int32_of : ℤ → ℕ
int32_of (pos n) = n % 4294967296
int32_of (negsuc n) = 4294967295 - n % 4294967296

abbrev pub int_of_int32 : ℕ → ℤ
int_of_int32 v = if ltb v 2147483648 then pos v else negsuc (4294967295 - v)
