-- ===== src/Chunk/Stream/Write.antt =====
-- The writer refines an append-only list of bits.
use ozymandias.Base.{
  ℕ, zero, suc, ◌+◌, ◌-◌, ◌*◌, ◌^◌, ◌≤◌, ◌<◌, ◌≡◌, refl, ap, sym, ◌∙◌, bit_and, bit_or, Bool, true,
  false, not, List, [], ◌∷◌, ◌++◌, if◌then◌else◌, leb, ◌==◌, All, All-snoc, arith,
}
use mathlib.Core.Path.{subst}
use mathlib.Core.List.{append_assoc, append-nil}
use native.Mathlib.Nat.{mul-lt-mul_of_pos_right}
use native.Mathlib.Numerals.{add-one}
use ozymandias.Base.Word.{IsByte, shl}
use ozymandias.Base.Word.Bitwise.{bit_or_fields, bit_and_single}
use ozymandias.Base.Word.Power.{two-pow-suc, two-pow-pos, pow-add}
use ozymandias.Chunk.Bits.{bit_value, bits_of, stream_bits, bits_of_split}
use ozymandias.Chunk.Stream.{Writer, or_last, open_byte, put_bit, write_bit, write_slow}

-- The writer holds these bits behind the bytes `h`: full bytes, and then maybe the top `n` bits
-- of a last one, whose free bits are 0.
pub data Holds (h : List ℕ) (w : Writer) (bits : List Bool) : Type 0 where
  full :
      (init : List ℕ)
      → All IsByte init
      → w.stream ≡ h ++ init
      → w.count ≡ 0
      → bits ≡ stream_bits init
      → Holds h w bits
  part :
      (init : List ℕ) (n v : ℕ)
      → All IsByte init
      → w.stream ≡ h ++ (init ++ (v * 2 ^ w.count) ∷ [])
      → suc n + w.count ≡ 8
      → 0 < w.count
      → v < 2 ^ suc n
      → bits ≡ stream_bits init ++ bits_of (suc n) v
      → Holds h w bits

or_last-snoc : (m : ℕ) (xs : List ℕ) (x : ℕ) → or_last m (xs ++ x ∷ []) ≡ xs ++ (bit_or x m) ∷ []
unfolding or_last
or_last-snoc m [] x = refl
or_last-snoc m (y ∷ []) x = refl
or_last-snoc m (y ∷ z ∷ ys) x = ap (λ t. y ∷ t) (or_last-snoc m (z ∷ ys) x)

or_last-behind :
    (m : ℕ) (h xs : List ℕ) (x : ℕ)
    → or_last m (h ++ (xs ++ x ∷ [])) ≡ h ++ (xs ++ (bit_or x m) ∷ [])
or_last-behind m h xs x =
    rw (← append_assoc h xs (x ∷ []), ← append_assoc h xs (bit_or x m ∷ []))
      (or_last-snoc m (h ++ xs) x)

pub stream_bits-snoc :
    (xs : List ℕ) (b : ℕ) → stream_bits (xs ++ b ∷ []) ≡ stream_bits xs ++ bits_of 8 b
unfolding stream_bits
stream_bits-snoc [] b = append-nil (bits_of 8 b)
stream_bits-snoc (x ∷ xs) b = rw (stream_bits-snoc xs b) (sym (append_assoc (bits_of 8 x) _ _))

-- One more bit at the end of the bits of a number.
bits_of-snoc :
    (n v : ℕ) (b : Bool) → v < 2 ^ n → bits_of (n + 1) (v * 2 + bit_value b) ≡ bits_of n v ++ b ∷ []
unfolding bits_of
bits_of-snoc n v true h = bits_of_split n 1 v 1 h (omega arith)
bits_of-snoc n v false h = bits_of_split n 1 v 0 h (omega arith)

-- The byte in which the highest free bit is set or left.
set_bit :
    (k v : ℕ) (b : Bool)
    → (if b then bit_or (v * 2 ^ suc k) (2 ^ k) else v * 2 ^ suc k) ≡ (v * 2 + bit_value b) * 2 ^ k
set_bit k v true = omega (
  arith,
  bit_or_fields (suc k) v (2 ^ k) (omega (arith, two-pow-suc k, two-pow-pos k)),
  ap (λ (t : ℕ). v * t) (two-pow-suc k),
)
set_bit k v false = omega (arith, ap (λ (t : ℕ). v * t) (two-pow-suc k))

put_bit-stream :
    (h init : List ℕ) (k v : ℕ) (w : Writer) (b : Bool)
    → w.stream ≡ h ++ (init ++ (v * 2 ^ suc k) ∷ [])
    → w.count ≡ suc k
    → ((put_bit w b).stream ≡ h ++ (init ++ ((v * 2 + bit_value b) * 2 ^ k) ∷ []))
      × ((put_bit w b).count ≡ k)
unfolding put_bit
put_bit-stream h init k v w true e c =
    let m : w.count - 1 ≡ k = omega arith in
    (rw (e, m) (rw or_last-behind (ap (λ t. h ++ (init ++ t ∷ [])) (set_bit k v true))), m)
put_bit-stream h init k v w false e c =
    (rw e (ap (λ t. h ++ (init ++ t ∷ [])) (set_bit k v false)), omega arith)

open_full :
    (w : Writer) → w.count ≡ 0 → open_byte w ≡ record { stream = w.stream ++ 0 ∷ []; count = 8 }
unfolding open_byte
open_full w c = ground arith

open_part : (w : Writer) → 0 < w.count → open_byte w ≡ w
unfolding open_byte
open_part w p = ground arith

snoc_bits :
    (init : List ℕ) (n v : ℕ) (b : Bool) {bits : List Bool}
    → v < 2 ^ n
    → bits ≡ stream_bits init ++ bits_of n v
    → bits ++ b ∷ [] ≡ stream_bits init ++ bits_of (suc n) (v * 2 + bit_value b)
snoc_bits init n v b f g =
    rw (g, append_assoc (stream_bits init) (bits_of n v) (b ∷ []), ← bits_of-snoc n v b f, add-one)

last-IsByte : (v : ℕ) (b : Bool) → v < 2 ^ 7 → v * 2 + bit_value b < 256
last-IsByte v true f = omega arith
last-IsByte v false f = omega arith

-- A bit behind the `n` bits of an open byte.
put_bit-Holds :
    (h init : List ℕ) (k n v : ℕ) (w : Writer) (b : Bool) {bits : List Bool}
    → w.stream ≡ h ++ (init ++ (v * 2 ^ suc k) ∷ [])
    → w.count ≡ suc k
    → n + suc k ≡ 8
    → v < 2 ^ n
    → bits ≡ stream_bits init ++ bits_of n v
    → All IsByte init
    → Holds h (put_bit w b) (bits ++ b ∷ [])
put_bit-Holds h init zero n v w b e c s f g by =
    let last : ℕ = v * 2 + bit_value b in
    let (st, co) = put_bit-stream h init zero v w b e c in
    let seven : n ≡ 7 = omega arith in
    let small : last < 256 = last-IsByte v b (rw seven at f) in
    Holds.full (init ++ last ∷ []) (All-snoc IsByte init last by small)
      (st ∙ ap (λ t. h ++ (init ++ t ∷ [])) (omega arith)) co
      (snoc_bits init n v b f g ∙ rw (seven, stream_bits-snoc))
put_bit-Holds h init (suc k) n v w b e c s f g by =
    let (st, co) = put_bit-stream h init (suc k) v w b e c in
    Holds.part init n (v * 2 + bit_value b) by (rw co st) (omega arith) (omega arith)
      (ground (arith, two-pow-suc n)) (snoc_bits init n v b f g)

-- A bit that is written is the next one held.
pub write_bit-Holds :
    (h : List ℕ) (w : Writer) (b : Bool) {bits : List Bool}
    → Holds h w bits
    → Holds h (write_bit w b) (bits ++ b ∷ [])
unfolding write_bit bits_of
write_bit-Holds h w b (Holds.full init by st co g) = rw (open_full w co) (
    put_bit-Holds h init 7 0 0 _ b (rw st (append_assoc h init (0 ∷ []))) refl refl (omega arith)
      (g ∙ sym (append-nil _)) by)
write_bit-Holds h w b (Holds.part init n v by st s p f g) =
    let c : w.count ≡ suc (w.count - 1) = omega arith in
    rw (open_part w p)
      (put_bit-Holds h init (w.count - 1) (suc n) v w b (rw (← c) st) c (omega arith) f g by)

-- The product of the bits above and below a place of a word.
pub pow_split : (n k m : ℕ) → n + k ≡ m → 2 ^ n * 2 ^ k ≡ 2 ^ m
pow_split n k m e = pow-add n k ∙ ap (λ t. 2 ^ t) e

top_clear : (u : ℕ) → u < 2 ^ 63 → bit_and u (2 ^ 63) ≡ 0
top_clear u h =
    let e : u ≡ 0 * 2 ^ 64 + (0 * 2 ^ 63 + u) = omega arith in
    ap (λ t. bit_and t (2 ^ 63)) e ∙ bit_and_single 63 0 0 u (omega arith) h

top_set : (r : ℕ) → r < 2 ^ 63 → bit_and (2 ^ 63 + r) (2 ^ 63) ≡ 2 ^ 63
top_set r h =
    let e : 2 ^ 63 + r ≡ 0 * 2 ^ 64 + (1 * 2 ^ 63 + r) = omega arith in
    ap (λ t. bit_and t (2 ^ 63)) e ∙ bit_and_single 63 0 1 r (omega arith) h

-- The highest bit of a word that holds `n + 1` bits at its top, and what the shift leaves.
low :
    (n k v : ℕ)
    → n + k ≡ 63
    → v < 2 ^ n
    → (v * 2 ^ k < 2 ^ 63) × (shl (v * 2 ^ k) 1 ≡ v * 2 ^ suc k)
low n k v s f =
    let below : v * 2 ^ k < 2 ^ 63 =
      omega (arith, pow_split n k 63 s, mul-lt-mul_of_pos_right {k = 2 ^ k} f (two-pow-pos k)) in
    (below, omega (arith, below, ap (λ (t : ℕ). v * t) (two-pow-suc k)))

high :
    (n k v : ℕ)
    → n + k ≡ 63
    → v < 2 ^ suc n
    → 2 ^ n ≤ v
    → (v * 2 ^ k ≡ 2 ^ 63 + (v - 2 ^ n) * 2 ^ k) × (shl (v * 2 ^ k) 1 ≡ (v - 2 ^ n) * 2 ^ suc k)
high n k v s f le =
    let whole : v ≡ v - 2 ^ n + 2 ^ n = omega arith in
    let split : v * 2 ^ k ≡ 2 ^ 63 + (v - 2 ^ n) * 2 ^ k =
      omega (arith, pow_split n k 63 s, ap (λ (t : ℕ). t * 2 ^ k) whole) in
    let (below, shifted) = low n k (v - 2 ^ n) s (omega (arith, two-pow-suc n)) in
    (split, omega (arith, split, below, shifted))

shift_out :
    (n k v : ℕ)
    → n + k ≡ 63
    → v < 2 ^ suc n
    → (not (bit_and (v * 2 ^ k) (2 ^ 63) == 0) ≡ leb (2 ^ n) v)
      × (shl (v * 2 ^ k) 1 ≡ (if leb (2 ^ n) v then v - 2 ^ n else v) * 2 ^ suc k)
shift_out n k v s f = ground (
  arith,
  two-pow-suc n,
  low n k v s,
  high n k v s f,
  low n k (v - 2 ^ n) s,
  top_clear (v * 2 ^ k),
  top_set ((v - 2 ^ n) * 2 ^ k),
)

pub write_slow-Holds :
    (h : List ℕ) (n k v : ℕ) (w : Writer) {bits : List Bool}
    → n + k ≡ 64
    → v < 2 ^ n
    → Holds h w bits
    → Holds h (write_slow w (v * 2 ^ k) n) (bits ++ bits_of n v)
unfolding write_slow bits_of
write_slow-Holds h zero k v w s f g = subst (Holds h w) (sym (append-nil _)) g
write_slow-Holds h (suc n) k v w {bits} s f g =
    let (test, shifted) = shift_out n k v (omega arith) f in
    rw (test, shifted)
      (subst (Holds h _) (append_assoc bits (leb (2 ^ n) v ∷ []) _) (
        write_slow-Holds h n (suc k) (if leb (2 ^ n) v then v - 2 ^ n else v)
          (write_bit w (leb (2 ^ n) v)) (omega arith) (ground (arith, two-pow-suc n))
          (write_bit-Holds h w (leb (2 ^ n) v) g)))
