-- ===== src/Base/Words.antt =====
-- Words of 64 bits: arithmetic that wraps, the sign of an int64_t, and shifts, whose count a 64-bit
-- machine takes modulo 64.
use Prim.Native.Nat.{ℕ, ◌+◌, ◌-◌, ◌*◌, ◌/◌, ◌%◌, ◌^◌}
use mathlib.Core.Bool.{Bool}
use fastpass.Base.Tests.{leb}

abbrev pub add64 : ℕ → ℕ → ℕ
add64 a b = (a + b) % 2 ^ 64

abbrev pub sub64 : ℕ → ℕ → ℕ
sub64 a b = (a % 2 ^ 64 + 2 ^ 64 - b % 2 ^ 64) % 2 ^ 64

abbrev pub is_negative : ℕ → Bool
is_negative x = leb (2 ^ 63) x

abbrev pub shr64 : ℕ → ℕ → ℕ
shr64 x n = x / 2 ^ (n % 64)

abbrev pub shl64 : ℕ → ℕ → ℕ
shl64 x n = x * 2 ^ (n % 64) % 2 ^ 64
