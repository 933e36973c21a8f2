-- ===== src/Base/Word/Bitwise.antt =====
-- `|`, `&` and `^` of Go as arithmetic, at every width.
use Prim.Native.Nat.{ℕ, zero, suc, ◌+◌, ◌*◌, ◌/◌, ◌%◌, ◌^◌, ◌≤◌, ◌<◌, min, max}
use Prim.Native.Nat.{digits, differ, bitwise, bit_and, bit_or, bit_xor}
use Prim.Native.Nat.{bit_and-bitwise, bit_or-bitwise, bit_xor-bitwise}
use mathlib.Core.Path.{◌≡◌, refl, ap, sym, ◌∙◌}
use mathlib.Core.Bool.{Bool, true, ◌&&◌}
use ozymandias.Base.Tests.{◌==◌}
use native.Mathlib.Omega.{arith}
use native.Mathlib.Nat.{le_refl, mod-lt, div-add-mod'}
use ozymandias.Base.Word.Power.{two-pow-suc, two-pow-pos}

-- The operations are a recursion on binary digits with fuel; here is the equation for the lowest.
module _ (z : ℕ → ℕ) (f : ℕ → ℕ → ℕ) where
  fuel_free : (n m a b : ℕ) → a ≤ n → a ≤ m → digits z f n a b ≡ digits z f m a b
  fuel_free zero zero a b p q = refl
  fuel_free zero (suc m) zero b p q = refl
  fuel_free zero (suc m) (suc a) b p q = absurd (omega arith)
  fuel_free (suc n) zero zero b p q = refl
  fuel_free (suc n) zero (suc a) b p q = absurd (omega arith)
  fuel_free (suc n) (suc m) zero b p q = refl
  fuel_free (suc n) (suc m) (suc a) b p q =
      rw (fuel_free n m (suc a / 2) (b / 2) (omega arith) (omega arith))

  lowest_digit :
      (a b : ℕ)
      → bitwise z f (suc a) b ≡ bitwise z f (suc a / 2) (b / 2) * 2 + f (suc a % 2) (b % 2)
  lowest_digit a b =
      omega (arith, fuel_free a (suc a / 2) (suc a / 2) (b / 2) (omega arith) (le_refl _))

or_digit : (a b : ℕ) → bit_or a b ≡ bit_or (a / 2) (b / 2) * 2 + max (a % 2) (b % 2)
or_digit zero b = simp bit_or-bitwise (omega arith)
or_digit (suc a) b = simp bit_or-bitwise (lowest_digit (λ y. y) max a b)

and_digit : (a b : ℕ) → bit_and a b ≡ bit_and (a / 2) (b / 2) * 2 + min (a % 2) (b % 2)
and_digit zero b = simp bit_and-bitwise (omega arith)
and_digit (suc a) b = simp bit_and-bitwise (lowest_digit (λ y. 0) min a b)

xor_digit : (a b : ℕ) → bit_xor a b ≡ bit_xor (a / 2) (b / 2) * 2 + differ (a % 2) (b % 2)
xor_digit zero b = simp bit_xor-bitwise (omega arith)
xor_digit (suc a) b = simp bit_xor-bitwise (lowest_digit (λ y. y) differ a b)

zero-bit_or : (b : ℕ) → bit_or 0 b ≡ b
zero-bit_or b = bit_or-bitwise 0 b

bit_or-zero_below : (n a : ℕ) → a ≤ n → bit_or a 0 ≡ a
bit_or-zero_below n zero h = refl
bit_or-zero_below zero (suc a) h = absurd (omega arith)
bit_or-zero_below (suc n) (suc a) h =
    omega (arith, or_digit (suc a) 0, bit_or-zero_below n (suc a / 2) (omega arith))

double_shift : (q k : ℕ) → q * 2 ^ suc k ≡ 2 * (q * 2 ^ k)
double_shift q k = omega (arith, ap (λ (t : ℕ). q * t) (two-pow-suc k))

-- `q << k | r` is a sum where `r` fits `k` bits, and so is `r | q << k`.
pub bit_or_fields : (k q r : ℕ) → r < 2 ^ k → bit_or (q * 2 ^ k) r ≡ q * 2 ^ k + r
bit_or_fields zero q r h = ground (arith, bit_or-zero_below q q)
bit_or_fields (suc k) q r h =
    ground (
      arith,
      or_digit (q * 2 ^ suc k) r,
      double_shift q k,
      two-pow-suc k,
      bit_or_fields k q (r / 2),
    )

pub bit_or_fields_low : (k q r : ℕ) → r < 2 ^ k → bit_or r (q * 2 ^ k) ≡ r + q * 2 ^ k
bit_or_fields_low zero q r h = ground (arith, zero-bit_or q)
bit_or_fields_low (suc k) q r h = ground (
  arith,
  or_digit r (q * 2 ^ suc k),
  double_shift q k,
  two-pow-suc k,
  bit_or_fields_low k q (r / 2),
)

bit_and-zero_below : (n a : ℕ) → a ≤ n → bit_and a 0 ≡ 0
bit_and-zero_below n zero h = refl
bit_and-zero_below zero (suc a) h = absurd (omega arith)
bit_and-zero_below (suc n) (suc a) h =
    omega (arith, and_digit (suc a) 0, bit_and-zero_below n (suc a / 2) (omega arith))

-- `a & (1 << k)` for a number with the digit `q` at place `k`.
pub bit_and_single :
    (k p q r : ℕ)
    → q < 2
    → r < 2 ^ k
    → bit_and (p * 2 ^ suc k + (q * 2 ^ k + r)) (2 ^ k) ≡ q * 2 ^ k
bit_and_single zero p q r hq hr = ground (
  arith,
  and_digit (p * 2 ^ 1 + (q * 2 ^ 0 + r)) 1,
  bit_and-zero_below ((p * 2 ^ 1 + (q * 2 ^ 0 + r)) / 2) ((p * 2 ^ 1 + (q * 2 ^ 0 + r)) / 2),
)
bit_and_single (suc k) p q r hq hr = ground (
  arith,
  and_digit (p * 2 ^ suc (suc k) + (q * 2 ^ suc k + r)) (2 ^ suc k),
  double_shift p (suc k),
  double_shift q k,
  two-pow-suc k,
  bit_and_single k p q (r / 2),
)

bit_and_fields : (k q r m : ℕ) → m + 1 ≡ 2 ^ k → r < 2 ^ k → bit_and (q * 2 ^ k + r) m ≡ r
bit_and_fields zero q r zero h hr =
    ground (arith, bit_and-zero_below (q * 2 ^ 0 + r) (q * 2 ^ 0 + r))
bit_and_fields zero q r (suc m) h hr = absurd (omega arith)
bit_and_fields (suc k) q r m h hr = ground (
  arith,
  and_digit (q * 2 ^ suc k + r) m,
  double_shift q k,
  two-pow-suc k,
  two-pow-pos k,
  bit_and_fields k q (r / 2) (m / 2),
)

-- `a & (2 ^ k - 1)`, the mask being `m`.
pub bit_and_mask : (k a m : ℕ) → m + 1 ≡ 2 ^ k → bit_and a m ≡ a % 2 ^ k
bit_and_mask k a m h = ground (
  arith,
  two-pow-pos k,
  mod-lt a {m = 2 ^ k} (two-pow-pos k),
  div-add-mod' a (2 ^ k),
  bit_and_fields k (a / 2 ^ k) (a % 2 ^ k) m,
)

differ_twice : (p q : ℕ) → p < 2 → q < 2 → (differ p (differ q p) ≡ q) × (differ q p < 2)
differ_twice zero zero hp hq = omega arith
differ_twice zero (suc zero) hp hq = omega arith
differ_twice (suc zero) zero hp hq = omega arith
differ_twice (suc zero) (suc zero) hp hq = omega arith
differ_twice (suc (suc p)) q hp hq = absurd (omega arith)
differ_twice p (suc (suc q)) hp hq = absurd (omega arith)

xor_twice_below : (n a b : ℕ) → a ≤ n → b ≤ n → bit_xor a (bit_xor b a) ≡ b
xor_twice_below zero zero zero ha hb = refl
xor_twice_below zero (suc a) b ha hb = absurd (omega arith)
xor_twice_below zero zero (suc b) ha hb = absurd (omega arith)
xor_twice_below (suc n) a b ha hb = ground (
  arith,
  xor_digit a (bit_xor b a),
  xor_digit b a,
  differ_twice (a % 2) (b % 2),
  xor_twice_below n (a / 2) (b / 2),
)

-- `a ^ (b ^ a)` is `b`.
pub xor_twice : (a b : ℕ) → bit_xor a (bit_xor b a) ≡ b
xor_twice a b = xor_twice_below (a + b) a b (omega arith) (omega arith)

pub xor_zero : (a : ℕ) → bit_xor a 0 ≡ a
xor_zero a = sym (bit_xor-bitwise 0 (bit_xor a 0)) ∙ xor_twice 0 a

pub bit_xor-lt : (k a b : ℕ) → a < 2 ^ k → b < 2 ^ k → bit_xor a b < 2 ^ k
bit_xor-lt zero a b ha hb =
    let za : a ≡ 0 = omega arith in let zb : b ≡ 0 = omega arith in rw (za, zb) (omega arith)
bit_xor-lt (suc k) a b ha hb = ground (
  arith,
  xor_digit a b,
  two-pow-suc k,
  differ_twice (b % 2) (a % 2),
  bit_xor-lt k (a / 2) (b / 2),
)

-- Over a small range, two functions are compared by evaluation.
agree_below : ℕ → (ℕ → ℕ) → (ℕ → ℕ) → Bool
agree_below zero f g = true
agree_below (suc n) f g = (f n == g n) && agree_below n f g

eq_of_agree : (n : ℕ) (f g : ℕ → ℕ) (x : ℕ) → agree_below n f g ≡ true → x < n → f x ≡ g x
unfolding agree_below
eq_of_agree zero f g x h l = absurd (omega arith)
eq_of_agree (suc n) f g x h l = ground (arith, eq_of_agree n f g x)

-- `x | 0x80` on a byte.
pub bit_or_top : (x : ℕ) → x < 256 → bit_or x 0x80 ≡ x % 128 + 128
unfolding agree_below
bit_or_top x h = eq_of_agree 256 (λ y. bit_or y 0x80) (λ y. y % 128 + 128) x refl h
