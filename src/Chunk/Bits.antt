-- ===== src/Chunk/Bits.antt =====
-- What a bitstream holds, apart from its bytes: lists of bits, the most significant first.
use ozymandias.Base.{
  ℕ, zero, suc, ◌+◌, ◌-◌, ◌*◌, ◌^◌, ◌≤◌, ◌<◌, ◌≡◌, refl, ap, Bool, true, false, List, [], ◌∷◌, ◌++◌,
  if◌then◌else◌, leb, length, arith,
}
use native.Mathlib.Nat.{mul-le-mul_right, zero-add, suc-add}
use ozymandias.Base.Word.Power.{two-pow-suc, pow-add}

abbrev pub bit_value : Bool → ℕ
bit_value true = 1
bit_value false = 0

-- The `n` bits of a number below 2 ^ n.
unfoldable pub bits_of : ℕ → ℕ → List Bool
bits_of zero v = []
bits_of (suc n) v = leb (2 ^ n) v ∷ bits_of n (if leb (2 ^ n) v then v - 2 ^ n else v)

unfoldable pub stream_bits : List ℕ → List Bool
stream_bits [] = []
stream_bits (b ∷ bs) = bits_of 8 b ++ stream_bits bs

-- The number that bits spell, behind those that `u` stands for.
unfoldable pub value_from : ℕ → List Bool → ℕ
value_from u [] = u
value_from u (b ∷ bs) = value_from (2 * u + bit_value b) bs

pub length-bits_of : (n v : ℕ) → length (bits_of n v) ≡ n
unfolding bits_of
length-bits_of zero v = refl
length-bits_of (suc n) v = ap suc (length-bits_of n _)

-- The highest digit of `x` in front of `b` more.
pub top_fits : (a b x y : ℕ) → x < 2 ^ a → y < 2 ^ b → x * 2 ^ b + y < 2 ^ (a + b)
top_fits a b x y hx hy = omega (arith, pow-add a b, mul-le-mul_right (2 ^ b) hx)

top_falls : (a b x y : ℕ) → 2 ^ a ≤ x → x * 2 ^ b + y ≡ 2 ^ (a + b) + ((x - 2 ^ a) * 2 ^ b + y)
top_falls a b x y h =
    let whole : x ≡ x - 2 ^ a + 2 ^ a = omega arith in
    omega (arith, pow-add a b, ap (λ (t : ℕ). t * 2 ^ b) whole)

-- The bits of a number whose top `a` bits are `x`, and the other `b` are `y`.
pub bits_of_split :
    (a b x y : ℕ)
    → x < 2 ^ a
    → y < 2 ^ b
    → bits_of (a + b) (x * 2 ^ b + y) ≡ bits_of a x ++ bits_of b y
unfolding bits_of
bits_of_split zero b x y hx hy = ground (arith, zero-add b)
bits_of_split (suc a) b x y hx hy = rw suc-add (
    ground (
      arith,
      two-pow-suc a,
      top_fits a b x y,
      top_falls a b x y,
      bits_of_split a b x y,
      bits_of_split a b (x - 2 ^ a) y,
    ))

pub value_from-bits_of : (n u v : ℕ) → v < 2 ^ n → value_from u (bits_of n v) ≡ u * 2 ^ n + v
unfolding bits_of value_from
value_from-bits_of zero u v h = omega arith
value_from-bits_of (suc n) u v h = ground (
  arith,
  two-pow-suc n,
  ap (λ (t : ℕ). u * t) (two-pow-suc n),
  value_from-bits_of n (2 * u + 1) (v - 2 ^ n),
  value_from-bits_of n (2 * u + 0) v,
)

pub value_from-append :
    (u : ℕ) (p q : List Bool) → value_from u (p ++ q) ≡ value_from (value_from u p) q
unfolding value_from
value_from-append u [] q = refl
value_from-append u (b ∷ p) q = value_from-append (2 * u + bit_value b) p q

-- Equal bits that start with as many as `q` has start with `q`.
pub append_split :
    (p q r s : List Bool)
    → p ++ r ≡ q ++ s
    → length q ≤ length p
    → (p' : List Bool) × (p ≡ q ++ p') × (p' ++ r ≡ s)
append_split p [] r s e h = (p, refl, e)
append_split [] (y ∷ q) r s e h = absurd (omega arith)
append_split (x ∷ p) (y ∷ q) r s e h =
    let (p', a, b) = append_split p q r s (cc) (omega arith) in (p', cc, b)
