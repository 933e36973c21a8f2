-- ===== src/Base/Word/Power.antt =====
-- Powers of two, and quotients by them.
use Prim.Native.Nat.{ℕ, zero, suc, ◌+◌, ◌*◌, ◌/◌, ◌%◌, ◌^◌, ◌<◌}
use mathlib.Core.Path.{◌≡◌, ap}
use native.Mathlib.Omega.{arith}
use native.Mathlib.Nat.{pow-suc, one-le-pow, zero-add, suc-add}

pub two-pow-suc : (k : ℕ) → 2 ^ suc k ≡ 2 ^ k + 2 ^ k
two-pow-suc k = omega (arith, pow-suc 2 k)

pub two-pow-pos : (k : ℕ) → 0 < 2 ^ k
two-pow-pos k = omega (arith, one-le-pow k 2 (omega arith))

pub pow-add : (a b : ℕ) → 2 ^ a * 2 ^ b ≡ 2 ^ (a + b)
pow-add zero b = rw zero-add (omega arith)
pow-add (suc a) b = rw suc-add (
    omega (
      arith,
      two-pow-suc a,
      two-pow-suc (a + b),
      pow-add a b,
      ap (λ (t : ℕ). t * 2 ^ b) (two-pow-suc a),
    ))

pub mod_unique : (q n r : ℕ) → r < n → (q * n + r) % n ≡ r
mod_unique q n r h = grind arith

pub div_unique : (q n r : ℕ) → r < n → (q * n + r) / n ≡ q
div_unique q n r h = grind arith
