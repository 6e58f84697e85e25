-- ===== src/Common/Words.antt =====
-- Machine words as native numbers. A signed 32-bit integer is its two's complement bit pattern;
-- `bias` carries the signed order over to the numbers.
use sdk_golang.Common.Tests.{ltb, leb}
use Prim.Native.Nat.{ℕ, ◌+◌, ◌-◌, ◌%◌, ◌^◌, ◌<◌}
use mathlib.Core.Bool.{Bool}

abbrev pub IsByte : ℕ → Type 0
IsByte b = b < 256

abbrev pub IsU16 : ℕ → Type 0
IsU16 w = w < 2 ^ 16

abbrev pub IsU32 : ℕ → Type 0
IsU32 w = w < 2 ^ 32

abbrev pub IsU64 : ℕ → Type 0
IsU64 w = w < 2 ^ 64

abbrev pub max_uint32 : ℕ
max_uint32 = 0xffff_ffff

-- The bit pattern of int32(-1).
abbrev pub minus_one : ℕ
minus_one = 0xffff_ffff

abbrev pub bias : ℕ → ℕ
bias w = (w + 2 ^ 31) % 2 ^ 32

-- a < b and a <= b on int32.
abbrev pub slt : ℕ → ℕ → Bool
slt a b = ltb (bias a) (bias b)

abbrev pub sle : ℕ → ℕ → Bool
sle a b = leb (bias a) (bias b)

-- a + b and a - b on uint32 and on int32.
abbrev pub add32 : ℕ → ℕ → ℕ
add32 a b = (a + b) % 2 ^ 32

abbrev pub sub32 : ℕ → ℕ → ℕ
sub32 a b = (a + 2 ^ 32 - b % 2 ^ 32) % 2 ^ 32
