-- ===== src/Chunk/Stream/WriteBits.antt =====
-- `writeBits` on both its paths: the bytes of an aligned writer, and the single bits.
use ozymandias.Base.{
  ℕ, zero, suc, ◌+◌, ◌-◌, ◌*◌, ◌/◌, ◌%◌, ◌^◌, ◌≤◌, ◌<◌, ◌≡◌, ap, sym, ◌∙◌, inl, inr, Bool, ◌&&◌,
  List, [], ◌∷◌, ◌++◌, ltb, leb, ◌==◌, All-snoc, arith, Bool-cases,
}
use mathlib.Core.Path.{subst}
use mathlib.Core.List.{append_assoc, append-nil}
use native.Mathlib.Nat.{mod-lt, div-add-mod', mul-lt-mul_of_pos_right, lt_of_mul-lt-mul_right}
use ozymandias.Base.Word.{IsByte, IsU64, shl, shr}
use ozymandias.Base.Word.Power.{two-pow-pos, pow-add}
use ozymandias.Chunk.Bits.{bits_of, bits_of_split}
use ozymandias.Chunk.Stream.{Writer, Pending, write_bytes, write_slow, write_bits, aligned}
use ozymandias.Chunk.Stream.Write.{Holds, pow_split, stream_bits-snoc, write_slow-Holds}

-- A byte at the top of `m + 8` bits, and what is left of them.
record TopByte (n m k v : ℕ) : Type 0 where
  byte : ℕ
  rest : ℕ
  fits : byte < 2 ^ 8
  rest_fits : rest < 2 ^ m
  cut : bits_of n v ≡ bits_of 8 byte ++ bits_of m rest
  shifted : shl (v * 2 ^ k) 8 ≡ rest * 2 ^ (k + 8)
  taken : shr (v * 2 ^ k) 56 % 256 ≡ byte

top_byte : (n m k v : ℕ) → n ≡ 8 + m → m + k ≡ 56 → v < 2 ^ n → TopByte n m k v
top_byte n m k v wide s f0 =
    let f : v < 2 ^ (8 + m) = subst (λ t. v < 2 ^ t) wide f0 in
    let x : ℕ = v / 2 ^ m in
    let y : ℕ = v % 2 ^ m in
    let fit : x < 2 ^ 8 =
      lt_of_mul-lt-mul_right (2 ^ m) (omega (arith, div-add-mod' v (2 ^ m), pow-add 8 m)) in
    let small : y < 2 ^ m = mod-lt v (two-pow-pos m) in
    let whole : v ≡ x * 2 ^ m + y = sym (div-add-mod' v (2 ^ m)) in
    let below : y * 2 ^ k < 2 ^ 56 =
      omega
        (arith, pow_split m k 56 s, mul-lt-mul_of_pos_right {k = 2 ^ k} small (two-pow-pos k)) in
    let word : v * 2 ^ k ≡ x * 2 ^ 56 + y * 2 ^ k = omega (
      arith,
      pow_split m k 56 s,
      ap (λ (t : ℕ). x * t) (pow_split m k 56 s),
      ap (λ (t : ℕ). t * 2 ^ k) whole,
    ) in
    record {
      byte = x;
      rest = y;
      fits = fit;
      rest_fits = small;
      cut =
          ap (λ t. bits_of t v) wide ∙ ap (bits_of (8 + m)) whole ∙ bits_of_split 8 m x y fit small;
      shifted = omega (arith, word, below, ap (λ (t : ℕ). y * t) (pow-add k 8));
      taken = omega (arith, word, below, fit);
    }

-- What both loops of `writeBits` leave.
abbrev finish : Pending → Writer
finish p = write_slow p.writer p.word p.nbits

Holds-byte :
    (h : List ℕ) (w : Writer) (b : ℕ) {bits : List Bool}
    → w.count ≡ 0
    → b < 2 ^ 8
    → Holds h w bits
    → Holds h (record w { stream = w.stream ++ b ∷ [] }) (bits ++ bits_of 8 b)
Holds-byte h w b c l (Holds.full init by st co g) =
    Holds.full (init ++ b ∷ []) (All-snoc IsByte init b by l) (rw st (append_assoc h init (b ∷ [])))
      co (rw (g, stream_bits-snoc))
Holds-byte h w b c l (Holds.part init n v by st s p f g) = absurd (omega arith)

finish-Holds :
    (h : List ℕ) (f n k v : ℕ) (w : Writer) {bits : List Bool}
    → n + k ≡ 64
    → v < 2 ^ n
    → Holds h w bits
    → Holds h (finish (write_bytes f w (v * 2 ^ k) n)) (bits ++ bits_of n v)
unfolding write_bytes
finish-Holds h zero n k v w s l g = write_slow-Holds h n k v w s l g
finish-Holds h (suc f) n k v w {bits} s l g = elim (Bool-cases (leb 8 n && w.count == 0)) [
  | inr slow ↦ rw slow (write_slow-Holds h n k v w s l g)
  | inl fast ↦
      let m : ℕ = n - 8 in
      let wide : n ≡ 8 + m = ground arith in
      let t = top_byte n m k v wide (omega arith) l in
      rw (fast, t.taken, t.shifted, t.cut)
        (subst (Holds h _) (append_assoc bits (bits_of 8 t.byte) (bits_of m t.rest)) (
          finish-Holds h f m (k + 8) t.rest (record w { stream = w.stream ++ t.byte ∷ [] })
            (omega arith) t.rest_fits (Holds-byte h w t.byte (ground arith) t.fits g)))
]

left_align : (n k v : ℕ) → n + k ≡ 64 → shl v k ≡ v % 2 ^ n * 2 ^ k
left_align n k v s =
    let q : ℕ = v / 2 ^ n in
    let r : ℕ = v % 2 ^ n in
    let whole : v ≡ q * 2 ^ n + r = sym (div-add-mod' v (2 ^ n)) in
    let below : r * 2 ^ k < 2 ^ 64 = omega (
      arith,
      pow_split n k 64 s,
      mul-lt-mul_of_pos_right {k = 2 ^ k} (mod-lt v (two-pow-pos n)) (two-pow-pos k),
    ) in
    omega
      (arith, below, ap (λ (t : ℕ). t * 2 ^ k) whole, ap (λ (t : ℕ). q * t) (pow_split n k 64 s))

aligned_lem : (n v : ℕ) → n ≤ 64 → IsU64 v → aligned v n ≡ v % 2 ^ n * 2 ^ (64 - n)
unfolding aligned
aligned_lem n v l b = elim (Bool-cases (ltb n 64)) [
  | inl short ↦ rw short (left_align n (64 - n) v (ground arith))
  | inr long ↦ let all : n ≡ 64 = ground arith in rw (long, all) (omega arith)
]

write_bits-suc :
    (n v : ℕ) (w : Writer)
    → write_bits w v (suc n) ≡ finish (write_bytes (suc n) w (aligned v (suc n)) (suc n))
unfolding write_bits
write_bits-suc n v w = ground arith

-- The writer holds the low `n` bits of the word behind what it held, for at most 64 bits, on both
-- paths of `writeBits`, and whether or not it stands on a byte boundary.
pub write_bits-Holds :
    (h : List ℕ) (n v : ℕ) (w : Writer) {bits : List Bool}
    → n ≤ 64
    → IsU64 v
    → Holds h w bits
    → Holds h (write_bits w v n) (bits ++ bits_of n (v % 2 ^ n))
unfolding write_bits
write_bits-Holds h zero v w s l g = unfold bits_of in subst (Holds h w) (sym (append-nil _)) g
write_bits-Holds h (suc n) v w {bits} s l g =
    rw (write_bits-suc n v w, aligned_lem (suc n) v s l)
      (finish-Holds h (suc n) (suc n) (64 - suc n) (v % 2 ^ suc n) w (omega arith)
        (mod-lt v (two-pow-pos (suc n))) g)
