-- ===== src/Chunk/Value/Write.antt =====
-- `writeValue` writes the bits of the value, and keeps or sets the window.
use ozymandias.Base.{
  ℕ, ◌+◌, ◌-◌, ◌%◌, ◌^◌, ◌≤◌, ◌<◌, ◌≡◌, ◌≢◌, refl, inl, inr, bit_and, bit_xor, Bool, true, false,
  List, [], ◌∷◌, ◌++◌, arith, Bool-cases,
}
use mathlib.Core.Path.{subst}
use mathlib.Core.List.{append_assoc}
use native.Mathlib.Nat.{mod-eq_of_lt, pow-le-pow_right}
use native.Mathlib.Decide.{ℕ_discrete}
use ozymandias.Base.Word.{IsU64, shr}
use ozymandias.Base.Word.Bitwise.{bit_xor-lt, bit_and_mask}
use ozymandias.Chunk.Bits.{bits_of}
use ozymandias.Chunk.Stream.{Writer, write_bit, write_bits}
use ozymandias.Chunk.Stream.Write.{Holds, write_bit-Holds}
use ozymandias.Chunk.Stream.WriteBits.{write_bits-Holds}
use ozymandias.Chunk.Coder.{Coder, trailing_zeros}
use ozymandias.Chunk.Appender.{fits_window, write_window, write_value}
use ozymandias.Chunk.Value.{
  HasWindow, leading_of, value_window, value_bits, reused_bits, described_bits, value_same,
  value_reused, value_described,
}
use ozymandias.Chunk.Value.Zeros.{Covers, own_window, old_window}

-- `n` bits of a number that has no more.
write_number :
    (h : List ℕ) (n v : ℕ) (w : Writer) {bits : List Bool}
    → n ≤ 64
    → v < 2 ^ n
    → Holds h w bits
    → Holds h (write_bits w v n) (bits ++ bits_of n v)
write_number h n v w {bits} l f g =
    let b : IsU64 v = omega (arith, pow-le-pow_right {n = 2} (omega arith) l) in
    subst (λ t. Holds h (write_bits w v n) (bits ++ bits_of n t)) (mod-eq_of_lt f)
      (write_bits-Holds h n v w l b g)

-- A window that is used again stands for a fitting XOR.
pub known_window :
    (s : Coder) (x : ℕ)
    → HasWindow s
    → fits_window s (leading_of x) (trailing_zeros x) ≡ true
    → s.leading + s.trailing < 64
unfolding fits_window
known_window s x h f = ground (arith, f)

regroup_two :
    (bits : List Bool) (x y : Bool) (a : List Bool)
    → ((bits ++ x ∷ []) ++ y ∷ []) ++ a ≡ bits ++ x ∷ y ∷ a
regroup_two bits x y a = simp append_assoc

regroup_five :
    (bits : List Bool) (x y : Bool) (a b c : List Bool)
    → ((((bits ++ x ∷ []) ++ y ∷ []) ++ a) ++ b) ++ c ≡ bits ++ x ∷ y ∷ (a ++ (b ++ c))
regroup_five bits x y a b c = simp append_assoc

write_reused :
    (h : List ℕ) (s : Coder) (x : ℕ) (w : Writer) {bits : List Bool}
    → Covers s.leading s.trailing x
    → Holds h w bits
    → Holds h
        (write_bits
          (write_bit (write_bit w true) false)
          (shr x s.trailing)
          (64 - s.leading - s.trailing))
        (bits ++ reused_bits s x)
write_reused h s x w {bits} c g = subst (Holds h _) (regroup_two bits true false _) (
    write_number h (64 - s.leading - s.trailing) (shr x s.trailing) _ (omega arith) c.fits
      (write_bit-Holds h _ false (write_bit-Holds h w true g)))

write_described :
    (h : List ℕ) (l t x : ℕ) (w : Writer) {bits : List Bool}
    → Covers l t x
    → l ≤ 31
    → Holds h w bits
    → Holds h
        (write_bits
          (write_bits
            (write_bits (write_bit (write_bit w true) true) l 5)
            (bit_and (64 - l - t) 0x3f)
            6)
          (shr x t)
          (64 - l - t))
        (bits ++ described_bits l t x)
write_described h l t x w {bits} c le g = rw (bit_and_mask 6 (64 - l - t) 0x3f refl) (
    subst (Holds h _) (regroup_five bits true true _ _ _) (
      write_number h (64 - l - t) (shr x t) _ (omega arith) c.fits (
        write_number h 6 ((64 - l - t) % 64) _ (omega arith) (omega arith) (
          write_number h 5 l _ (omega arith) (omega arith)
            (write_bit-Holds h _ true (write_bit-Holds h w true g))))))

window_reused :
    (s : Coder) (x : ℕ) (w : Writer)
    → fits_window s (leading_of x) (trailing_zeros x) ≡ true
    → write_window s x w
      ≡ (write_bits (write_bit w false) (shr x s.trailing) (64 - s.leading - s.trailing), s)
unfolding write_window leading_of
window_reused s x w f = rw f

window_described :
    (s : Coder) (x : ℕ) (w : Writer)
    → fits_window s (leading_of x) (trailing_zeros x) ≡ false
    → write_window s x w ≡ (
      write_bits
          (write_bits
            (write_bits (write_bit w true) (leading_of x) 5)
            (bit_and (64 - leading_of x - trailing_zeros x) 0x3f)
            6)
          (shr x (trailing_zeros x))
          (64 - leading_of x - trailing_zeros x),
      record s { leading = leading_of x; trailing = trailing_zeros x },
    )
unfolding write_window leading_of
window_described s x w f = rw f

abbrev Writes : List ℕ → Writer × Coder → List Bool → Coder → Type 0
Writes h p bits s = Holds h p.0 bits × (p.1 ≡ s)

write_window-Holds :
    (h : List ℕ) (s : Coder) (x : ℕ) (w : Writer) {bits : List Bool}
    → HasWindow s
    → x < 2 ^ 64
    → x ≢ 0
    → Holds h w bits
    → Writes h (write_window s x (write_bit w true)) (bits ++ value_bits s x) (value_window s x)
write_window-Holds h s x w {bits} hw b n g =
    elim (Bool-cases (fits_window s (leading_of x) (trailing_zeros x))) [
      | inl f ↦
          let (eb, ew) = value_reused s x n f in
          let c = old_window s x b n (known_window s x hw f) f in
          rw (window_reused s x (write_bit w true) f, eb, ew) (write_reused h s x w c g, refl)
      | inr f ↦
          let (eb, ew) = value_described s x n f in
          let (c, small) = own_window x b n in
          rw (window_described s x (write_bit w true) f, eb, ew)
            (write_described h (leading_of x) (trailing_zeros x) x w c small g, refl)
    ]

value_zero :
    (s : Coder) (v : ℕ) (w : Writer)
    → bit_xor v s.v ≡ 0
    → write_value s v w ≡ (write_bit w false, s)
unfolding write_value
value_zero s v w z = ground (arith, z)

value_nonzero :
    (s : Coder) (v : ℕ) (w : Writer)
    → bit_xor v s.v ≢ 0
    → write_value s v w ≡ write_window s (bit_xor v s.v) (write_bit w true)
unfolding write_value
value_nonzero s v w n = ground arith

-- The writer holds the bits of the value behind what it held, and the window is the one that they
-- set, or the one before.
pub write_value-Holds :
    (h : List ℕ) (s : Coder) (v : ℕ) (w : Writer) {bits : List Bool}
    → HasWindow s
    → IsU64 v
    → IsU64 s.v
    → Holds h w bits
    → Holds h (write_value s v w).0 (bits ++ value_bits s (bit_xor v s.v))
      × ((write_value s v w).1 ≡ value_window s (bit_xor v s.v))
write_value-Holds h s v w {bits} hw bv bs g = elim (ℕ_discrete (bit_xor v s.v) 0) [
  | yes z ↦
      let (eb, ew) = value_same s (bit_xor v s.v) z in
      rw (value_zero s v w z, eb, ew) (write_bit-Holds h w false g, refl)
  | no n ↦
      rw (value_nonzero s v w n)
        (write_window-Holds h s (bit_xor v s.v) w hw (bit_xor-lt 64 v s.v bv bs) n g)
]
