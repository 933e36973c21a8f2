-- ===== src/Base/Word.antt =====
-- 64-bit machine words as native numbers: a Go uint64, and an int64 as its two's complement pattern.
-- Shifts and sums wrap by `% 2 ^ 64`.
pub mod Bitwise
pub mod Power
use ozymandias.Base.Tests.{ltb}
use Prim.Native.Nat.{ℕ, ◌+◌, ◌-◌, ◌*◌, ◌/◌, ◌%◌, ◌^◌, ◌<◌}
use mathlib.Core.Bool.{Bool}

abbrev pub IsByte : ℕ → Type 0
IsByte b = b < 256

abbrev pub IsU64 : ℕ → Type 0
IsU64 u = u < 2 ^ 64

abbrev pub shl : ℕ → ℕ → ℕ
shl u k = u * 2 ^ k % 2 ^ 64

abbrev pub shr : ℕ → ℕ → ℕ
shr u k = u / 2 ^ k

abbrev pub complement : ℕ → ℕ
complement u = 2 ^ 64 - 1 - u

abbrev pub add64 : ℕ → ℕ → ℕ
add64 a b = (a + b) % 2 ^ 64

abbrev pub sub64 : ℕ → ℕ → ℕ
sub64 a b = (a + 2 ^ 64 - b) % 2 ^ 64

-- `a < b` on int64.
abbrev pub signed_lt : ℕ → ℕ → Bool
signed_lt a b = ltb ((a + 2 ^ 63) % 2 ^ 64) ((b + 2 ^ 63) % 2 ^ 64)
