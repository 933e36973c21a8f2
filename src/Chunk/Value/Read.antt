-- ===== src/Chunk/Value/Read.antt =====
-- `readValue` reads the bits of the value back, and keeps or sets the window.
use ozymandias.Base.{
  ℕ, ◌+◌, ◌-◌, ◌/◌, ◌%◌, ◌^◌, ◌≤◌, ◌<◌, ◌≡◌, refl, ap, sym, ◌∙◌, inl, inr, bit_xor, Bool, true,
  false, ◌==◌, List, ◌++◌, if◌then◌else◌, arith, Bool-cases,
}
use mathlib.Core.Path.{subst}
use mathlib.Core.List.{append_assoc}
use native.Mathlib.Decide.{ℕ_discrete}
use ozymandias.Base.Word.{IsU64, shl}
use ozymandias.Base.Word.Bitwise.{xor_twice, xor_zero, bit_xor-lt}
use ozymandias.Chunk.Bits.{bits_of}
use ozymandias.Chunk.Stream.{Reader, Result, ok, read_bit, read_bits}
use ozymandias.Chunk.Stream.Read.{Reads, read_bit-Reads}
use ozymandias.Chunk.Stream.ReadBits.{read_bits-number}
use ozymandias.Chunk.Coder.{Coder, trailing_zeros}
use ozymandias.Chunk.Appender.{fits_window}
use ozymandias.Chunk.Iterator.{read_window, read_xor, read_value}
use ozymandias.Chunk.Value.{
  HasWindow, leading_of, value_window, value_bits, reused_bits, described_bits, value_same,
  value_reused, value_described,
}
use ozymandias.Chunk.Value.Zeros.{Covers, own_window, old_window}
use ozymandias.Chunk.Value.Write.{known_window}

-- The reader gives `a`, and these bits still lie ahead.
abbrev pub Gives {ℓ} : {A : Type ℓ} → Result (A × Reader) → A → List Bool → Type ℓ
Gives m a bits = (r' : Reader) × (m ≡ ok (a, r')) × Reads r' bits

read_xor-step :
    (s : Coder) (r r' : Reader) (n y v : ℕ)
    → (s.leading == 0xff) ≡ false
    → (n == 0) ≡ false
    → 64 - s.leading - s.trailing ≡ n
    → read_bits n r ≡ ok (y, r')
    → bit_xor s.v (shl y s.trailing) ≡ v
    → read_xor s r ≡ ok (record s { v = v }, r')
unfolding read_xor
read_xor-step s r r' n y v l z w e x = rw (l, w, z, e, x) refl

read_xor-Reads :
    (s : Coder) (x v : ℕ) (r : Reader) {bits : List Bool}
    → Covers s.leading s.trailing x
    → x < 2 ^ 64
    → bit_xor s.v x ≡ v
    → Reads r (bits_of (64 - s.leading - s.trailing) (x / 2 ^ s.trailing) ++ bits)
    → Gives (read_xor s r) (record s { v = v }) bits
read_xor-Reads s x v r {bits} c b e h =
    let room = c.room in
    let n : ℕ = 64 - s.leading - s.trailing in
    let (r', q, h') = read_bits-number n (x / 2 ^ s.trailing) r bits (omega arith) c.fits h in
    let shifted : shl (x / 2 ^ s.trailing) s.trailing ≡ x = omega (arith, b, c.whole) in
    (
      r',
      read_xor-step s r r' n (x / 2 ^ s.trailing) v (ground (arith, room)) (ground (arith, room))
          refl q (ap (bit_xor s.v) shifted ∙ e),
      h',
    )

read_window-step :
    (s : Coder) (l t p q : ℕ) (r r1 r2 : Reader)
    → read_bits 5 r ≡ ok (p, r1)
    → read_bits 6 r1 ≡ ok (q, r2)
    → p ≡ l
    → l ≤ 31
    → l + t < 64
    → q ≡ (64 - l - t) % 64
    → read_window s r ≡ ok (record s { leading = l; trailing = t }, r2)
unfolding read_window
read_window-step s l t p q r r1 r2 e1 e2 el small room eq =
    let lead : p % 256 ≡ l = omega arith in
    let trail : (64 + 2 ^ 64 - p - (if q == 0 then 64 else q)) % 2 ^ 64 % 256 ≡ t = ground arith in
    rw (e1, e2, lead, trail) refl

read_window-Reads :
    (s : Coder) (l t : ℕ) (r : Reader) {bits : List Bool}
    → l ≤ 31
    → l + t < 64
    → Reads r (bits_of 5 l ++ (bits_of 6 ((64 - l - t) % 64) ++ bits))
    → Gives (read_window s r) (record s { leading = l; trailing = t }) bits
read_window-Reads s l t r {bits} small room h =
    let (r1, e1, h1) = read_bits-number 5 l r _ (omega arith) (omega arith) h in
    let (r2, e2, h2) =
      read_bits-number 6 ((64 - l - t) % 64) r1 bits (omega arith) (omega arith) h1 in
    (r2, read_window-step s l t l ((64 - l - t) % 64) r r1 r2 e1 e2 refl small room refl, h2)

read_value-same :
    (s : Coder) (r r1 : Reader) → read_bit r ≡ ok (false, r1) → read_value s r ≡ ok (s, r1)
unfolding read_value
read_value-same s r r1 e = rw e refl

read_value-reused :
    (s : Coder) (r r1 r2 : Reader)
    → read_bit r ≡ ok (true, r1)
    → read_bit r1 ≡ ok (false, r2)
    → read_value s r ≡ read_xor s r2
unfolding read_value
read_value-reused s r r1 r2 e1 e2 = rw (e1, e2) refl

read_value-described :
    (s s' : Coder) (r r1 r2 r3 : Reader)
    → read_bit r ≡ ok (true, r1)
    → read_bit r1 ≡ ok (true, r2)
    → read_window s r2 ≡ ok (s', r3)
    → read_value s r ≡ read_xor s' r3
unfolding read_value
read_value-described s s' r r1 r2 r3 e1 e2 e3 = rw (e1, e2, e3) refl

Reads-reused :
    (s : Coder) (x v : ℕ) (r : Reader) {bits : List Bool}
    → Covers s.leading s.trailing x
    → x < 2 ^ 64
    → bit_xor s.v x ≡ v
    → Reads r (reused_bits s x ++ bits)
    → Gives (read_value s r) (record s { v = v }) bits
Reads-reused s x v r c b e h =
    let (r1, e1, h1) = read_bit-Reads r true _ h in
    let (r2, e2, h2) = read_bit-Reads r1 false _ h1 in
    let (r3, e3, h3) = read_xor-Reads s x v r2 c b e h2 in
    (r3, read_value-reused s r r1 r2 e1 e2 ∙ e3, h3)

regroup : (a b c bits : List Bool) → (a ++ (b ++ c)) ++ bits ≡ a ++ (b ++ (c ++ bits))
regroup a b c bits = simp append_assoc

Reads-described :
    (s : Coder) (l t x v : ℕ) (r : Reader) {bits : List Bool}
    → Covers l t x
    → l ≤ 31
    → x < 2 ^ 64
    → bit_xor s.v x ≡ v
    → Reads r (described_bits l t x ++ bits)
    → Gives (read_value s r) (record s { v = v; leading = l; trailing = t }) bits
Reads-described s l t x v r {bits} c small b e h =
    let (r1, e1, h1) = read_bit-Reads r true _ h in
    let (r2, e2, h2) = read_bit-Reads r1 true _ h1 in
    let (r3, e3, h3) =
      read_window-Reads s l t r2 small c.room
        (subst (Reads r2) (regroup (bits_of 5 l) _ _ bits) h2) in
    let s' : Coder = record s { leading = l; trailing = t } in
    let (r4, e4, h4) = read_xor-Reads s' x v r3 c b e h3 in
    (r4, read_value-described s s' r r1 r2 r3 e1 e2 e3 ∙ e4, h4)

abbrev with_v : Coder → ℕ → Coder
with_v s v = record s { v = v }

kept : (s : Coder) (v : ℕ) → s.v ≡ v → s ≡ with_v s v
kept s v e = ap (with_v s) e

-- The reader gives the value back, and the window is the one that the writer goes on with.
pub read_value-Reads :
    (s : Coder) (v : ℕ) (r : Reader) {bits : List Bool}
    → HasWindow s
    → IsU64 v
    → IsU64 s.v
    → Reads r (value_bits s (bit_xor v s.v) ++ bits)
    → (r' : Reader) × (read_value s r ≡ ok (record (value_window s (bit_xor v s.v)) { v = v }, r'))
      × Reads r' bits
read_value-Reads s v r {bits} hw bv bs h =
    let x : ℕ = bit_xor v s.v in
    let back : bit_xor s.v x ≡ v = xor_twice s.v v in
    let b : x < 2 ^ 64 = bit_xor-lt 64 v s.v bv bs in
    elim (ℕ_discrete x 0) [
      | yes z ↦
          let (eb, ew) = value_same s x z in
          let (r1, e1, h1) = read_bit-Reads r false bits (subst (λ t. Reads r (t ++ bits)) eb h) in
          let same : s.v ≡ v = sym (xor_zero s.v) ∙ ap (bit_xor s.v) (sym z) ∙ back in
          (
            r1,
            read_value-same s r r1 e1
                ∙ ap (λ c. ok (c, r1)) (kept s v same ∙ ap (λ c. with_v c v) (sym ew)),
            h1,
          )
      | no n ↦ elim (Bool-cases (fits_window s (leading_of x) (trailing_zeros x))) [
        | inl f ↦
            let (eb, ew) = value_reused s x n f in
            let c = old_window s x b n (known_window s x hw f) f in
            let (r1, e1, h1) =
              Reads-reused s x v r c b back (subst (λ t. Reads r (t ++ bits)) eb h) in
            (r1, e1 ∙ ap (λ c. ok (with_v c v, r1)) (sym ew), h1)
        | inr f ↦
            let (eb, ew) = value_described s x n f in
            let (c, small) = own_window x b n in
            let (r1, e1, h1) =
              Reads-described s (leading_of x) (trailing_zeros x) x v r c small b back
                (subst (λ t. Reads r (t ++ bits)) eb h) in
            (r1, e1 ∙ ap (λ c. ok (with_v c v, r1)) (sym ew), h1)
      ]
    ]
