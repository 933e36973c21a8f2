-- ===== src/Chunk/Value/Zeros.antt =====
-- The zeros at both ends of a word, and the windows that hold all of its ones.
use ozymandias.Base.{
  ℕ, zero, suc, ◌+◌, ◌-◌, ◌*◌, ◌/◌, ◌%◌, ◌^◌, ◌≤◌, ◌<◌, ◌≡◌, ◌≢◌, ap, sym, ◌∙◌, arith, true, false,
  ◌==◌, inl, inr, Bool-cases,
}
use native.Mathlib.Nat.{add-zero, pow-le-pow_right, lt_of_mul-lt-mul_right}
use ozymandias.Base.Word.Power.{two-pow-suc, two-pow-pos, pow-add, div_unique}
use ozymandias.Chunk.Coder.{Coder, bit_len, leading_zeros, halvings, trailing_zeros}
use ozymandias.Chunk.Appender.{clamp_leading, fits_window}
use mathlib.Core.Path.{subst}
use native.Mathlib.Decide.{ℕ_discrete}
use ozymandias.Chunk.Value.{
  HasWindow, leading_of, value_window, value_same, value_reused, value_described,
}

bit_len_bounds : (f x : ℕ) → x < 2 ^ f → (x < 2 ^ bit_len f x) × (bit_len f x ≤ f)
unfolding bit_len
bit_len_bounds zero x h = (h, omega arith)
bit_len_bounds (suc f) x h =
    ground (arith, two-pow-suc f, two-pow-suc (bit_len f (x / 2)), bit_len_bounds f (x / 2))

halvings_odd : (f x : ℕ) → (x % 2 == 1) ≡ true → halvings (suc f) x ≡ 0
unfolding halvings
halvings_odd f x e = rw e

halvings_even : (f x : ℕ) → (x % 2 == 1) ≡ false → halvings (suc f) x ≡ suc (halvings f (x / 2))
unfolding halvings
halvings_even f x e = rw e

bit_len-suc : (f x : ℕ) → x ≢ 0 → bit_len (suc f) x ≡ suc (bit_len f (x / 2))
unfolding bit_len
bit_len-suc f x n = ground arith

-- A nonzero word is its ones, shifted by its trailing zeros, which are fewer than its digits.
halvings_lem :
    (f x : ℕ)
    → x < 2 ^ f
    → x ≢ 0
    → (q : ℕ) × (x ≡ q * 2 ^ halvings f x) × (halvings f x < bit_len f x)
halvings_lem zero x h n = absurd (n (omega arith))
halvings_lem (suc f) x h n = elim (Bool-cases (x % 2 == 1)) [
  | inl odd ↦
      let z = halvings_odd f x odd in
      (x, rw z (omega arith), rw (z, bit_len-suc f x n) (omega arith))
  | inr even ↦
      let z = halvings_even f x even in
      let half : x ≡ x / 2 * 2 = ground (arith, even) in
      let (q, e, l) =
        halvings_lem f (x / 2) (omega (arith, two-pow-suc f)) (λ zero_half. n (omega arith)) in
      (
        q,
        rw z (omega (arith, half, e, ap (λ (t : ℕ). q * t) (two-pow-suc (halvings f (x / 2))))),
        rw (z, bit_len-suc f x n) (omega (arith, l)),
      )
]

-- A window of `l` leading and `t` trailing places holds every one of `x`.
pub record Covers (l t x : ℕ) : Type 0 where
  pub room : l + t < 64
  pub whole : x ≡ x / 2 ^ t * 2 ^ t
  pub fits : x / 2 ^ t < 2 ^ (64 - l - t)

covers :
    (l t q x : ℕ) → l + t < 64 → l ≤ leading_zeros x → x < 2 ^ 64 → x ≡ q * 2 ^ t → Covers l t x
unfolding leading_zeros
covers l t q x lt le b e =
    let (up, len) = bit_len_bounds 64 x b in
    let top : 2 ^ bit_len 64 x ≤ 2 ^ (64 - l) = pow-le-pow_right (omega arith) (omega arith) in
    let quotient : x / 2 ^ t ≡ q =
      ap (λ k. k / 2 ^ t) (e ∙ sym (add-zero (q * 2 ^ t)))
      ∙ div_unique q (2 ^ t) 0 (two-pow-pos t) in
    let split : 2 ^ (64 - l - t) * 2 ^ t ≡ 2 ^ (64 - l) =
      pow-add (64 - l - t) t ∙ ap (λ k. 2 ^ k) (omega arith) in
    record {
      room = lt;
      whole = rw quotient e;
      fits = rw quotient (lt_of_mul-lt-mul_right (2 ^ t) (omega (arith, e, up, top, split)));
    }

-- The window that a nonzero XOR describes.
pub own_window :
    (x : ℕ) → x < 2 ^ 64 → x ≢ 0 → Covers (leading_of x) (trailing_zeros x) x × (leading_of x ≤ 31)
unfolding leading_of clamp_leading trailing_zeros leading_zeros
own_window x b n =
    let (q, e, l) = halvings_lem 64 x b n in
    let (up, len) = bit_len_bounds 64 x b in
    (
      covers (leading_of x) (halvings 64 x) q x (ground (arith, l, len)) (ground (arith, l, len)) b
          e,
      ground (arith, l, len),
    )

clamped :
    (s : Coder) (x : ℕ)
    → fits_window s (leading_of x) (trailing_zeros x) ≡ true
    → s.leading ≤ leading_zeros x
unfolding fits_window leading_of clamp_leading
clamped s x f = ground (arith, f)

-- A window that is used again.
pub old_window :
    (s : Coder) (x : ℕ)
    → x < 2 ^ 64
    → x ≢ 0
    → s.leading + s.trailing < 64
    → fits_window s (leading_of x) (trailing_zeros x) ≡ true
    → Covers s.leading s.trailing x
unfolding fits_window trailing_zeros
old_window s x b n room f =
    let (q, e, l) = halvings_lem 64 x b n in
    let k : ℕ = halvings 64 x - s.trailing in
    let tail : s.trailing ≤ halvings 64 x = ground (arith, f) in
    let split : 2 ^ k * 2 ^ s.trailing ≡ 2 ^ halvings 64 x =
      pow-add k s.trailing ∙ ap (λ m. 2 ^ m) (omega arith) in
    covers s.leading s.trailing (q * 2 ^ k) x room (clamped s x f) b
      (omega (arith, e, ap (λ (m : ℕ). q * m) split))

-- The window of the next value is one that holds a bit, if there is a window at all.
pub value_window-HasWindow :
    (s : Coder) (x : ℕ) → x < 2 ^ 64 → HasWindow s → HasWindow (value_window s x)
value_window-HasWindow s x b h = elim (ℕ_discrete x 0) [
  | yes z ↦ subst HasWindow (sym (value_same s x z).1) h
  | no n ↦ elim (Bool-cases (fits_window s (leading_of x) (trailing_zeros x))) [
    | inl f ↦ subst HasWindow (sym (value_reused s x n f).1) h
    | inr f ↦
        let (c, small) = own_window x b n in
        subst HasWindow (sym (value_described s x n f).1) (inr (small, c.room))
  ]
]
