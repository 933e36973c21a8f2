-- ===== src/Chunk/Value.antt =====
-- The bits that stand for one value of a chunk: the XOR with the value before, under its window.
pub mod Zeros
pub mod Write
pub mod Read
use ozymandias.Base.{
  ℕ, ◌+◌, ◌-◌, ◌/◌, ◌%◌, ◌^◌, ◌≤◌, ◌<◌, ◌≡◌, ◌≢◌, ◌⊎◌, arith, Bool, true, false, List, [], ◌∷◌,
  ◌++◌, if◌then◌else◌, ◌==◌,
}
use ozymandias.Chunk.Bits.{bits_of}
use ozymandias.Chunk.Coder.{Coder, leading_zeros, trailing_zeros}
use ozymandias.Chunk.Appender.{clamp_leading, fits_window}

-- No window yet, or one of at least one bit.
abbrev pub HasWindow : Coder → Type 0
HasWindow s = (s.leading ≡ 0xff) ⊎ ((s.leading ≤ 31) × (s.leading + s.trailing < 64))

-- The window that a nonzero XOR is written under.
unfoldable pub leading_of : ℕ → ℕ
leading_of x = clamp_leading (leading_zeros x)

unfoldable pub value_window : Coder → ℕ → Coder
value_window s x =
    if x == 0
    then s
    else if fits_window s (leading_of x) (trailing_zeros x)
    then s
    else record s { leading = leading_of x; trailing = trailing_zeros x }

abbrev pub reused_bits : Coder → ℕ → List Bool
reused_bits s x = true ∷ false ∷ bits_of (64 - s.leading - s.trailing) (x / 2 ^ s.trailing)

abbrev pub described_bits : ℕ → ℕ → ℕ → List Bool
described_bits l t x =
    true
    ∷ true
    ∷ (bits_of 5 l ++ (bits_of 6 ((64 - l - t) % 64) ++ bits_of (64 - l - t) (x / 2 ^ t)))

unfoldable pub value_bits : Coder → ℕ → List Bool
value_bits s x =
    if x == 0
    then false ∷ []
    else if fits_window s (leading_of x) (trailing_zeros x)
    then reused_bits s x
    else described_bits (leading_of x) (trailing_zeros x) x

-- The three ways to write a value.
pub value_same :
    (s : Coder) (x : ℕ) → x ≡ 0 → (value_bits s x ≡ false ∷ []) × (value_window s x ≡ s)
unfolding value_bits value_window
value_same s x z = (ground (arith, z), ground (arith, z))

pub value_reused :
    (s : Coder) (x : ℕ)
    → x ≢ 0
    → fits_window s (leading_of x) (trailing_zeros x) ≡ true
    → (value_bits s x ≡ reused_bits s x) × (value_window s x ≡ s)
unfolding value_bits value_window
value_reused s x n f = (ground (arith, f), ground (arith, f))

pub value_described :
    (s : Coder) (x : ℕ)
    → x ≢ 0
    → fits_window s (leading_of x) (trailing_zeros x) ≡ false
    → (value_bits s x ≡ described_bits (leading_of x) (trailing_zeros x) x)
      × (value_window s x ≡ record s { leading = leading_of x; trailing = trailing_zeros x })
unfolding value_bits value_window
value_described s x n f = (ground (arith, f), ground (arith, f))
