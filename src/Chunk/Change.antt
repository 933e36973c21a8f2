-- ===== src/Chunk/Change.antt =====
-- The delta-of-delta of a timestamp: the bits of its size class, and that they are read back.
use ozymandias.Base.{
  ℕ, zero, suc, ◌+◌, ◌-◌, ◌*◌, ◌%◌, ◌^◌, ◌≤◌, ◌<◌, ◌≡◌, refl, ap, sym, ◌∙◌, inl, inr, bit_and,
  bit_or, Bool, true, false, ltb, ◌==◌, List, [], ◌∷◌, ◌++◌, All, if◌then◌else◌, arith, Bool-cases,
}
use mathlib.Core.Path.{subst}
use mathlib.Core.List.{append_assoc, append-nil}
use native.Mathlib.Nat.{mod-eq_of_lt, mod-lt}
use ozymandias.Base.Word.{IsU64, shl}
use ozymandias.Base.Word.Bitwise.{bit_and_single, bit_or_fields_low}
use ozymandias.Base.Word.Power.{two-pow-suc, two-pow-pos, mod_unique}
use ozymandias.Chunk.Bits.{bits_of}
use ozymandias.Chunk.Stream.{Writer, write_bits, Reader, ok, read_bit, read_bits}
use ozymandias.Chunk.Stream.Write.{Holds}
use ozymandias.Chunk.Stream.WriteBits.{write_bits-Holds}
use ozymandias.Chunk.Stream.Read.{Reads, read_bit-Reads}
use ozymandias.Chunk.Stream.ReadBits.{read_bits-number}
use ozymandias.Chunk.Coder.{Bucket, dod_buckets}
use ozymandias.Chunk.Appender.{out_of_range, write_class, write_dod}
use ozymandias.Chunk.Iterator.{read_prefix, payload_bits, sign_extend, read_payload, read_dod}
use ozymandias.Chunk.Value.Read.{Gives}

-- The prefix and the payload of the first class that has room.
unfoldable pub class_bits : List Bucket → ℕ → List Bool
class_bits [] d = []
class_bits (b ∷ bs) d =
    let more = class_bits bs d in
    if b.bits == 0
    then (if d == 0 then bits_of b.prefix_bits b.prefix else more)
    else if out_of_range b.bits d
    then more
    else bits_of b.prefix_bits b.prefix ++ bits_of b.bits (d % 2 ^ b.bits)

abbrev pub dod_bits : ℕ → List Bool
dod_bits d = class_bits dod_buckets d

-- The fields of a class fit their widths.
abbrev BucketFits : Bucket → Type 0
BucketFits b =
    (b.prefix_bits ≤ 64) × (b.prefix < 2 ^ b.prefix_bits) × (b.prefix < 2 ^ 64) × (b.bits ≤ 64)

write_prefix :
    (h : List ℕ) (b : Bucket) (w : Writer) {bits : List Bool}
    → BucketFits b
    → Holds h w bits
    → Holds h (write_bits w b.prefix b.prefix_bits) (bits ++ bits_of b.prefix_bits b.prefix)
write_prefix h b w {bits} (l, f, u, _) g =
    subst (λ t. Holds h (write_bits w b.prefix b.prefix_bits) (bits ++ bits_of b.prefix_bits t))
      (mod-eq_of_lt f) (write_bits-Holds h b.prefix_bits b.prefix w l u g)

write_class-Holds :
    (h : List ℕ) (bs : List Bucket) (d : ℕ) (w : Writer) {bits : List Bool}
    → All BucketFits bs
    → IsU64 d
    → Holds h w bits
    → Holds h (write_class bs w d) (bits ++ class_bits bs d)
unfolding write_class class_bits
write_class-Holds h [] d w f u g = subst (Holds h w) (sym (append-nil _)) g
write_class-Holds h (b ∷ bs) d w {bits} ((f1, f2, f3, f4), fs) u g =
    let more = write_class-Holds h bs d w fs u g in
    let pre = write_prefix h b w (f1, f2, f3, f4) g in
    elim (Bool-cases (b.bits == 0)) [
      | inl none_wide ↦ elim (Bool-cases (d == 0)) [
        | inl same ↦ rw (none_wide, same) pre
        | inr other ↦ rw (none_wide, other) more
      ]
      | inr wide ↦ elim (Bool-cases (out_of_range b.bits d)) [
        | inl out ↦ rw (wide, out) more
        | inr fits ↦
            rw (wide, fits)
              (subst (Holds h _) (append_assoc bits _ _) (write_bits-Holds h b.bits d _ f4 u pre))
      ]
    ]

buckets_fit : All BucketFits dod_buckets
buckets_fit = (
  (omega arith, omega arith, omega arith, omega arith),
  (
    (omega arith, omega arith, omega arith, omega arith),
    (
      (omega arith, omega arith, omega arith, omega arith),
      (
        (omega arith, omega arith, omega arith, omega arith),
        ((omega arith, omega arith, omega arith, omega arith), tt),
      ),
    ),
  ),
)

pub write_dod-Holds :
    (h : List ℕ) (d : ℕ) (w : Writer) {bits : List Bool}
    → IsU64 d
    → Holds h w bits
    → Holds h (write_dod w d) (bits ++ dod_bits d)
unfolding write_dod
write_dod-Holds h d w u g = write_class-Holds h dod_buckets d w buckets_fit u g

-- A prefix of `j` ones, at most `n`: a zero ends a shorter one.
unary : ℕ → ℕ → List Bool
unary zero j = []
unary (suc n) zero = false ∷ []
unary (suc n) (suc j) = true ∷ unary n j

read_prefix-stop :
    (n k : ℕ) (r r1 : Reader) → read_bit r ≡ ok (false, r1) → read_prefix (suc n) k r ≡ ok (k, r1)
unfolding read_prefix
read_prefix-stop n k r r1 e = rw e refl

read_prefix-more :
    (n k : ℕ) (r r1 : Reader)
    → read_bit r ≡ ok (true, r1)
    → read_prefix (suc n) k r ≡ read_prefix n (k + 1) r1
unfolding read_prefix
read_prefix-more n k r r1 e = rw e refl

read_prefix-zero : (k : ℕ) (r : Reader) → read_prefix 0 k r ≡ ok (k, r)
unfolding read_prefix
read_prefix-zero k r = refl

read_prefix-Reads :
    (n j k : ℕ) (r : Reader) {bits : List Bool}
    → j ≤ n
    → Reads r (unary n j ++ bits)
    → Gives (read_prefix n k r) (k + j) bits
unfolding unary
read_prefix-Reads zero j k r l h =
    let e : k + j ≡ k = omega arith in (r, rw e (read_prefix-zero k r), h)
read_prefix-Reads (suc n) zero k r {bits} l h =
    let (r1, e, h1) = read_bit-Reads r false bits h in
    let none_more : k + 0 ≡ k = omega arith in
    (r1, read_prefix-stop n k r r1 e ∙ ap (λ t. ok (t, r1)) (sym none_more), h1)
read_prefix-Reads (suc n) (suc j) k r {bits} l h =
    let (r1, e, h1) = read_bit-Reads r true (unary n j ++ bits) h in
    let (r2, e2, h2) = read_prefix-Reads n j (k + 1) r1 (omega arith) h1 in
    let sum : k + 1 + j ≡ k + suc j = omega arith in
    (r2, read_prefix-more n k r r1 e ∙ e2 ∙ ap (λ t. ok (t, r2)) sum, h2)

-- The payload of a class with room for `d` is extended to `d`.
extended :
    (m k d : ℕ)
    → IsU64 d
    → suc m < 64
    → out_of_range (suc m) d ≡ false
    → 2 ^ suc m * suc k ≡ 2 ^ 64
    → shl (2 ^ 64 - 1) (suc m) ≡ k * 2 ^ suc m
    → sign_extend (suc m) (d % 2 ^ suc m) ≡ d
unfolding sign_extend out_of_range
extended m k d u l fits whole shifted =
    let pred : suc m - 1 ≡ m = omega arith in
    let double = two-pow-suc m in
    rw pred (elim (Bool-cases (ltb d (2 ^ m))) [
      | inl small ↦
          let below : d < 2 ^ m = ground (arith, small) in
          let same : d % 2 ^ suc m ≡ d = mod-eq_of_lt (omega (arith, double)) in
          let form : d ≡ 0 * 2 ^ suc m + (0 * 2 ^ m + d) = omega arith in
          let clear : bit_and d (2 ^ m) ≡ 0 =
            ap (λ t. bit_and t (2 ^ m)) form
            ∙ bit_and_single m 0 0 d (omega arith) below
            ∙ omega arith in
          rw same (ground (arith, clear))
      | inr big ↦
          let r : ℕ = d - (2 ^ 64 - 2 ^ m) in
          let high : 2 ^ 64 - 2 ^ m ≤ d = ground (arith, big, fits, pred) in
          let below : r < 2 ^ m = omega (arith, u) in
          let form : d ≡ k * 2 ^ suc m + (2 ^ m + r) = omega (arith, whole, double, high) in
          let low : d % 2 ^ suc m ≡ 2 ^ m + r =
            ap (λ t. t % 2 ^ suc m) form
            ∙ mod_unique k (2 ^ suc m) (2 ^ m + r) (omega (arith, double)) in
          let set : bit_and (2 ^ m + r) (2 ^ m) ≡ 2 ^ m =
            ap (λ t. bit_and t (2 ^ m)) (omega arith)
            ∙ bit_and_single m 0 1 r (omega arith) below
            ∙ omega arith in
          let joined : bit_or (2 ^ m + r) (k * 2 ^ suc m) ≡ 2 ^ m + r + k * 2 ^ suc m =
            bit_or_fields_low (suc m) k (2 ^ m + r) (omega (arith, double)) in
          rw (low, set, shifted, joined) (ground (arith, two-pow-pos m, form))
    ])

-- What the reader finds of a delta-of-delta: how many ones, and the payload behind them.
record Classed (d : ℕ) : Type 0 where
  ones : ℕ
  top : ones ≤ 4
  wide : payload_bits ones ≤ 64
  spelt : dod_bits d ≡ unary 4 ones ++ bits_of (payload_bits ones) (d % 2 ^ payload_bits ones)
  still : (ones == 0) ≡ true → d ≡ 0
  back : sign_extend (payload_bits ones) (d % 2 ^ payload_bits ones) ≡ d

zero_of : (d : ℕ) → (d == 0) ≡ true → d ≡ 0
zero_of d z = ground (arith, z)

no_limit : (d : ℕ) → out_of_range 64 d ≡ false
unfolding out_of_range
no_limit d = refl

classed : (d : ℕ) → IsU64 d → Classed d
unfolding class_bits unary sign_extend bits_of
classed d u = elim (Bool-cases (d == 0)) [
  | inl z ↦ record {
    ones = 0;
    top = omega arith;
    wide = omega arith;
    spelt = rw (z) refl;
    still = λ e. ground (arith, z);
    back = rw (zero_of d z) refl;
  }
  | inr n ↦ elim (Bool-cases (out_of_range 14 d)) [
    | inr small ↦ record {
      ones = 1;
      top = omega arith;
      wide = omega arith;
      spelt = rw (n, small) refl;
      still = λ e. ground (arith, e);
      back = extended 13 (2 ^ 50 - 1) d u (omega arith) small refl refl;
    }
    | inl no14 ↦ elim (Bool-cases (out_of_range 17 d)) [
      | inr mid ↦ record {
        ones = 2;
        top = omega arith;
        wide = omega arith;
        spelt = rw (n, no14, mid) refl;
        still = λ e. ground (arith, e);
        back = extended 16 (2 ^ 47 - 1) d u (omega arith) mid refl refl;
      }
      | inl no17 ↦ elim (Bool-cases (out_of_range 20 d)) [
        | inr large ↦ record {
          ones = 3;
          top = omega arith;
          wide = omega arith;
          spelt = rw (n, no14, no17, large) refl;
          still = λ e. ground (arith, e);
          back = extended 19 (2 ^ 44 - 1) d u (omega arith) large refl refl;
        }
        | inl no20 ↦ record {
          ones = 4;
          top = omega arith;
          wide = omega arith;
          spelt = rw (n, no14, no17, no20, no_limit d) refl;
          still = λ e. ground (arith, e);
          back = rw (mod-eq_of_lt u) refl;
        }
      ]
    ]
  ]
]

read_dod-still :
    (r r1 : Reader) (n : ℕ)
    → read_prefix 4 0 r ≡ ok (n, r1)
    → (n == 0) ≡ true
    → read_dod r ≡ ok (0, r1)
unfolding read_dod
read_dod-still r r1 n e z = rw (e, z) refl

read_dod-moved :
    (r r1 r2 : Reader) (n v : ℕ)
    → read_prefix 4 0 r ≡ ok (n, r1)
    → (n == 0) ≡ false
    → read_bits (payload_bits n) r1 ≡ ok (v, r2)
    → read_dod r ≡ ok (sign_extend (payload_bits n) v, r2)
unfolding read_dod read_payload
read_dod-moved r r1 r2 n v e z p = rw (e, z, p) refl

no_payload : (n x : ℕ) → (n == 0) ≡ true → bits_of (payload_bits n) x ≡ []
unfolding bits_of
no_payload zero x z = refl
no_payload (suc n) x z = absurd (ground (arith, z))

-- A delta-of-delta that was written in its class is read back.
pub read_dod-Reads :
    (d : ℕ) (r : Reader) {bits : List Bool}
    → IsU64 d
    → Reads r (dod_bits d ++ bits)
    → (r' : Reader) × (read_dod r ≡ ok (d, r')) × Reads r' bits
read_dod-Reads d r {bits} u h =
    let c = classed d u in
    let n = payload_bits c.ones in
    let (r1, e1, h1) =
      read_prefix-Reads 4 c.ones 0 r c.top
        (subst (Reads r) (ap (λ t. t ++ bits) c.spelt ∙ append_assoc (unary 4 c.ones) _ bits) h) in
    let (r2, e2, h2) =
      read_bits-number n (d % 2 ^ n) r1 bits c.wide (mod-lt d (two-pow-pos n)) h1 in
    let sum : 0 + c.ones ≡ c.ones = omega arith in
    elim (Bool-cases (c.ones == 0)) [
      | inl z ↦ (
        r1,
        read_dod-still r r1 (0 + c.ones) e1 (ground (arith, z))
            ∙ ap (λ t. ok (t, r1)) (sym (c.still z)),
        subst (λ t. Reads r1 (t ++ bits)) (no_payload c.ones (d % 2 ^ n) z) h1,
      )
      | inr w ↦ (
        r2,
        read_dod-moved r r1 r2 c.ones (d % 2 ^ n) (e1 ∙ ap (λ t. ok (t, r1)) sum) w e2
            ∙ ap (λ t. ok (t, r2)) c.back,
        h2,
      )
    ]
