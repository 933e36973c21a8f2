-- ===== src/LogStore/Bits.antt =====
-- Bits that are set stay set.
use ozymandias.Base.{
  ℕ, zero, suc, ◌*◌, ◌/◌, ◌%◌, ◌^◌, ◌<◌, ◌≡◌, refl, sym, bit_or, bit_and, Bool, true, not, ◌&&◌,
  ◌||◌, both_sides, List, [], ◌∷◌, length, All, arith, ltb, ◌==◌,
}
use mathlib.Core.Path.{subst}
use ozymandias.Base.Bytes.{Bytes}
use ozymandias.LogStore.{or_at, test_at, set_bits, all_set}

-- A test of the numbers under `top`, for tables that are found by evaluation.
every : (ℕ → Bool) → ℕ → Bool
every test zero = true
every test (suc top) = every test top && test top

every-at : (test : ℕ → Bool) (top : ℕ) → every test top ≡ true → (i : ℕ) → i < top → test i ≡ true
unfolding every
every-at test zero e i lt = absurd (omega (arith, lt))
every-at test (suc top) e i lt =
    let (lower, upper) = both_sides (every test top) (test top) e in
    ground (arith, upper, every-at test top lower i)

abbrev keeps_bits : ℕ → ℕ → ℕ → Bool
keeps_bits x k j =
    ltb (bit_or x (2 ^ k)) 256
    && not (bit_and (bit_or x (2 ^ k)) (2 ^ k) == 0)
    && (bit_and x (2 ^ j) == 0 || not (bit_and (bit_or x (2 ^ k)) (2 ^ j) == 0))

or_table : every (λ x. every (λ k. every (keeps_bits x k) 8) 8) 256 ≡ true
unfolding every
or_table = refl

abbrev pub IsBytes : Bytes → Type 0
IsBytes = All (λ (b : ℕ). b < 256)

or_keeps : (x k j : ℕ) → x < 256 → k < 8 → j < 8 → keeps_bits x k j ≡ true
or_keeps x k j hx hk hj =
    let of_byte = every-at (λ x. every (λ k. every (keeps_bits x k) 8) 8) 256 or_table x hx in
    let of_mask = every-at (λ k. every (keeps_bits x k) 8) 8 of_byte k hk in
    every-at (keeps_bits x k) 8 of_mask j hj

-- All bits of `xs` are bits of `ys`.
pub record Keeps (xs ys : Bytes) : Type 0 where
  pub as_long : length ys ≡ length xs
  pub bytes : IsBytes ys
  pub still : (i j : ℕ) → j < 8 → test_at i (2 ^ j) xs ≡ true → test_at i (2 ^ j) ys ≡ true

pub Keeps-refl : (xs : Bytes) → IsBytes xs → Keeps xs xs
Keeps-refl xs h = record { as_long = refl; bytes = h; still = λ i j l e. e }

pub Keeps-trans : {xs ys zs : Bytes} → Keeps xs ys → Keeps ys zs → Keeps xs zs
Keeps-trans f g = record {
  as_long = (let a = f.as_long in let b = g.as_long in omega (arith, a, b));
  bytes = g.bytes;
  still = λ i j l e. g.still i j l (f.still i j l e);
}

or_at-IsBytes : (i k : ℕ) (xs : Bytes) → k < 8 → IsBytes xs → IsBytes (or_at i (2 ^ k) xs)
unfolding or_at
or_at-IsBytes i k [] l h = tt
or_at-IsBytes zero k (x ∷ xs) l (a, h) =
    let e = or_keeps x k 0 a l (omega arith) in (ground (arith, e), h)
or_at-IsBytes (suc i) k (x ∷ xs) l (a, h) = (a, or_at-IsBytes i k xs l h)

length-or_at : (i mask : ℕ) (xs : Bytes) → length (or_at i mask xs) ≡ length xs
unfolding or_at
length-or_at i mask [] = refl
length-or_at zero mask (x ∷ xs) = refl
length-or_at (suc i) mask (x ∷ xs) = omega (arith, length-or_at i mask xs)

test_at-or_at :
    (i k n j : ℕ) (xs : Bytes)
    → k < 8
    → j < 8
    → IsBytes xs
    → test_at n (2 ^ j) xs ≡ true
    → test_at n (2 ^ j) (or_at i (2 ^ k) xs) ≡ true
unfolding test_at or_at
test_at-or_at i k n j [] l m h e = e
test_at-or_at zero k zero j (x ∷ xs) l m (a, h) e =
    let t = or_keeps x k j a l m in ground (arith, t, e)
test_at-or_at zero k (suc n) j (x ∷ xs) l m (a, h) e = e
test_at-or_at (suc i) k zero j (x ∷ xs) l m (a, h) e = e
test_at-or_at (suc i) k (suc n) j (x ∷ xs) l m (a, h) e = test_at-or_at i k n j xs l m h e

or_at-Keeps : (i k : ℕ) (xs : Bytes) → k < 8 → IsBytes xs → Keeps xs (or_at i (2 ^ k) xs)
or_at-Keeps i k xs l h = record {
  as_long = length-or_at i (2 ^ k) xs;
  bytes = or_at-IsBytes i k xs l h;
  still = λ n j m e. test_at-or_at i k n j xs l m h e;
}

or_at_sets :
    (i k : ℕ) (xs : Bytes)
    → k < 8
    → i < length xs
    → IsBytes xs
    → test_at i (2 ^ k) (or_at i (2 ^ k) xs) ≡ true
unfolding test_at or_at
or_at_sets i k [] l m h = absurd (omega (arith, m))
or_at_sets zero k (x ∷ xs) l m (a, h) =
    let t = or_keeps x k 0 a l (omega arith) in ground (arith, t)
or_at_sets (suc i) k (x ∷ xs) l m (a, h) = or_at_sets i k xs l (omega (arith, m)) h

pub set_bits-Keeps : (bits : Bytes) (ps : List ℕ) → IsBytes bits → Keeps bits (set_bits bits ps)
unfolding set_bits
set_bits-Keeps bits [] h = Keeps-refl bits h
set_bits-Keeps bits (p ∷ ps) h =
    let first = or_at-Keeps (p / 8) (p % 8) bits (omega arith) h in
    Keeps-trans first (set_bits-Keeps (or_at (p / 8) (2 ^ (p % 8)) bits) ps first.bytes)

pub all_set-Keeps :
    {xs ys : Bytes} (ps : List ℕ) → Keeps xs ys → all_set xs ps ≡ true → all_set ys ps ≡ true
unfolding all_set
all_set-Keeps [] k e = refl
all_set-Keeps {xs} {ys} (p ∷ ps) k e =
    let here = k.still (p / 8) (p % 8) (omega arith) (ground (arith, e)) in
    let rest = all_set-Keeps ps k (ground (arith, e)) in ground (arith, here, rest)

pub set_bits_sets :
    (bits : Bytes) (ps : List ℕ)
    → IsBytes bits
    → All (λ (p : ℕ). p < length bits * 8) ps
    → all_set (set_bits bits ps) ps ≡ true
unfolding set_bits all_set
set_bits_sets bits [] h l = refl
set_bits_sets bits (p ∷ ps) h (a, l) =
    let first = or_at-Keeps (p / 8) (p % 8) bits (omega arith) h in
    let now = or_at (p / 8) (2 ^ (p % 8)) bits in
    let is_set = or_at_sets (p / 8) (p % 8) bits (omega arith) (omega (arith, a)) h in
    let kept = (set_bits-Keeps now ps first.bytes).still (p / 8) (p % 8) (omega arith) is_set in
    let rest =
      set_bits_sets now ps first.bytes
        (subst (λ n. All (λ (q : ℕ). q < n * 8) ps) (sym first.as_long) l) in
    ground (arith, kept, rest)
