-- ===== src/Common/Int.antt =====
-- Signed integers over the native numbers, under the library's names, as far as the code has them:
-- differences of time points, and the `int` that is converted to an unsigned type.
use Prim.Native.Nat.{ℕ, ◌-◌, ◌%◌}
use prism_dev.Common.Tests.{leb, if◌then◌else◌}

-- `negsuc n` is -(n + 1).
pub data ℤ : Type 0 where
  pos : ℕ → ℤ
  negsuc : ℕ → ℤ

-- a - b, as an integer.
abbrev pub sub_ℕ : ℕ → ℕ → ℤ
sub_ℕ a b = if leb b a then pos (a - b) else negsuc (b - a - 1)

-- The value modulo 2^8 and modulo 2^16, as a conversion to `uint8_t` and `uint16_t` takes it.
abbrev pub to_u8 : ℤ → ℕ
to_u8 (pos n) = n % 256
to_u8 (negsuc n) = 255 - n % 256

abbrev pub to_u16 : ℤ → ℕ
to_u16 (pos n) = n % 65536
to_u16 (negsuc n) = 65535 - n % 65536
