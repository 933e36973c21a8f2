-- ===== src/Chunk/Stream/Read.antt =====
-- The reader consumes the bits that lie ahead of its cursor.
use ozymandias.Base.{
  ℕ, zero, suc, ◌+◌, ◌-◌, ◌*◌, ◌/◌, ◌%◌, ◌^◌, ◌≤◌, ◌<◌, ◌≡◌, refl, ap, sym, ◌∙◌, inl, inr, bit_and,
  bit_or, Bool, true, false, not, some, List, [], ◌∷◌, ◌++◌, if◌then◌else◌, leb, ◌==◌, All, drop,
  length, get_elem?, arith, Bool-cases,
}
use native.Mathlib.Nat.{mod-lt, div-add-mod', pow-le-pow_right}
use native.Mathlib.Numerals.{add-one}
use ozymandias.Base.Word.{IsByte, shl}
use ozymandias.Base.Word.Bitwise.{bit_or_fields, bit_and_single}
use ozymandias.Base.Word.Power.{two-pow-suc, two-pow-pos, pow-add, mod_unique}
use ozymandias.Chunk.Bits.{bit_value, bits_of, stream_bits, value_from}
use ozymandias.Chunk.Stream.{Reader, ok, take_bit, read_bit, read_slow}

-- The last `c` bits of the first byte, and all of the others.
unfoldable pub remaining : ℕ → List ℕ → List Bool
remaining c [] = []
remaining c (b ∷ bs) = bits_of c (b % 2 ^ c) ++ stream_bits bs

-- These bits lie ahead of the cursor.
pub record Reads (r : Reader) (bits : List Bool) : Type 0 where
  pub rest : List ℕ
  pub suffix : drop r.pos r.stream ≡ rest
  pub bytes : All IsByte rest
  pub small : r.count ≤ 8
  pub ahead : bits ≡ remaining r.count rest

pub drop_cons :
    (s : List ℕ) (p b : ℕ) (bs : List ℕ)
    → drop p s ≡ b ∷ bs
    → (get_elem? s p ≡ some b) × (p < length s) × (drop (p + 1) s ≡ bs)
drop_cons [] zero b bs e = absurd (cc)
drop_cons [] (suc p) b bs e = absurd (cc)
drop_cons (x ∷ s) zero b bs e = (cc, omega arith, cc)
drop_cons (x ∷ s) (suc p) b bs e =
    let (g, l, d) = drop_cons s p b bs e in (g, omega arith, rw add-one (rw add-one at d))

-- The digit at place `k` of a number, and what lies below it.
digit_at :
    (k b : ℕ)
    → (not (bit_and b (2 ^ k) == 0) ≡ leb (2 ^ k) (b % 2 ^ suc k))
      × (b % 2 ^ k ≡ (if leb (2 ^ k) (b % 2 ^ suc k) then b % 2 ^ suc k - 2 ^ k else b % 2 ^ suc k))
digit_at k b =
    let p : ℕ = b / 2 ^ suc k in
    let y : ℕ = b % 2 ^ suc k in
    let whole : b ≡ p * 2 ^ suc k + y = sym (div-add-mod' b (2 ^ suc k)) in
    let below : y < 2 ^ suc k = mod-lt b (two-pow-pos (suc k)) in
    elim (Bool-cases (leb (2 ^ k) y)) [
      | inl set ↦
          let r : ℕ = y - 2 ^ k in
          let small : r < 2 ^ k = ground (arith, two-pow-suc k) in
          let form : b ≡ p * 2 ^ suc k + (1 * 2 ^ k + r) = ground arith in
          let form' : b ≡ (2 * p + 1) * 2 ^ k + r =
            omega (arith, form, ap (λ (t : ℕ). p * t) (two-pow-suc k)) in
          let one : bit_and b (2 ^ k) ≡ 1 * 2 ^ k =
            ap (λ t. bit_and t (2 ^ k)) form ∙ bit_and_single k p 1 r (omega arith) small in
          let less : b % 2 ^ k ≡ r = ap (λ t. t % 2 ^ k) form' ∙ mod_unique _ (2 ^ k) r small in
          (ground (arith, one, set, two-pow-pos k), ground (arith, less, set))
      | inr clear ↦
          let small : y < 2 ^ k = ground arith in
          let form : b ≡ p * 2 ^ suc k + (0 * 2 ^ k + y) = omega arith in
          let form' : b ≡ 2 * p * 2 ^ k + y =
            omega (arith, form, ap (λ (t : ℕ). p * t) (two-pow-suc k)) in
          let none_set : bit_and b (2 ^ k) ≡ 0 * 2 ^ k =
            ap (λ t. bit_and t (2 ^ k)) form ∙ bit_and_single k p 0 y (omega arith) small in
          let less : b % 2 ^ k ≡ y = ap (λ t. t % 2 ^ k) form' ∙ mod_unique _ (2 ^ k) y small in
          (ground (arith, none_set, clear), ground (arith, less, clear))
    ]

cons_parts {ℓ} : {A : Type ℓ} {x y : A} {xs ys : List A} → x ∷ xs ≡ y ∷ ys → (x ≡ y) × (xs ≡ ys)
cons_parts e = (cc, cc)

take-Reads :
    (r : Reader) (b k : ℕ) (bs : List ℕ) (x : Bool) (bits : List Bool)
    → drop r.pos r.stream ≡ b ∷ bs
    → All IsByte (b ∷ bs)
    → r.count ≡ suc k
    → suc k ≤ 8
    → x ∷ bits ≡ remaining (suc k) (b ∷ bs)
    → (r' : Reader) × (take_bit r (some b) ≡ ok (x, r')) × Reads r' bits
unfolding take_bit remaining bits_of
take-Reads r b k bs x bits d by c s g =
    let (test, less) = digit_at k b in
    let (hd, tl) = cons_parts g in
    let k' : r.count - 1 ≡ k = omega arith in
    (
      record r { count = r.count - 1 },
      rw k' (rw (test, hd)),
      record {
        rest = b ∷ bs;
        suffix = d;
        bytes = by;
        small = omega arith;
        ahead = rw k' (tl ∙ rw less);
      },
    )

abbrev BitRead : Reader → Bool → List Bool → Type 0
BitRead r x bits = (r' : Reader) × (read_bit r ≡ ok (x, r')) × Reads r' bits

read_bit_here :
    (r : Reader) (b k : ℕ)
    → get_elem? r.stream r.pos ≡ some b
    → r.pos < length r.stream
    → r.count ≡ suc k
    → read_bit r ≡ take_bit r (some b)
unfolding read_bit
read_bit_here r b k e l c = ground arith

read_bit_next :
    (r : Reader)
    → r.pos < length r.stream
    → r.count ≡ 0
    → read_bit r
      ≡ take_bit (record r { pos = r.pos + 1; count = 8 }) (get_elem? r.stream (r.pos + 1))
unfolding read_bit
read_bit_next r l c = ground arith

pub remaining-full : (bs : List ℕ) → All IsByte bs → remaining 8 bs ≡ stream_bits bs
unfolding remaining stream_bits
remaining-full [] h = refl
remaining-full (b ∷ bs) h = let small : b % 2 ^ 8 ≡ b = omega arith in rw small

next-Reads :
    (r : Reader) (x : Bool) (bits : List Bool) (b : ℕ) (bs : List ℕ)
    → drop r.pos r.stream ≡ b ∷ bs
    → All IsByte bs
    → r.count ≡ 0
    → x ∷ bits ≡ stream_bits bs
    → BitRead r x bits
next-Reads r x bits b [] d by c g = absurd (unfold stream_bits in cc)
next-Reads r x bits b (b' ∷ bs) d by c g =
    let (_, l, d') = drop_cons r.stream r.pos b (b' ∷ bs) d in
    let (e, _, _) = drop_cons r.stream (r.pos + 1) b' bs d' in
    rw (read_bit_next r l c, e)
      (take-Reads (record r { pos = r.pos + 1; count = 8 }) b' 7 bs x bits d' by refl (omega arith)
        (g ∙ sym (remaining-full (b' ∷ bs) by)))

bit_on :
    (r : Reader) (x : Bool) (bits : List Bool) (rest : List ℕ) (c : ℕ)
    → drop r.pos r.stream ≡ rest
    → All IsByte rest
    → r.count ≡ c
    → c ≤ 8
    → x ∷ bits ≡ remaining c rest
    → BitRead r x bits
bit_on r x bits [] c d by e l g = absurd (unfold remaining in cc)
bit_on r x bits (b ∷ bs) zero d by e l g =
    next-Reads r x bits b bs d by.1 e (unfold remaining bits_of in g)
bit_on r x bits (b ∷ bs) (suc k) d by e l g =
    let (i, p, _) = drop_cons r.stream r.pos b bs d in
    rw (read_bit_here r b k i p e) (take-Reads r b k bs x bits d by e l g)

-- The next bit that lies ahead is the one that is read.
pub read_bit-Reads :
    (r : Reader) (x : Bool) (bits : List Bool)
    → Reads r (x ∷ bits)
    → (r' : Reader) × (read_bit r ≡ ok (x, r')) × Reads r' bits
read_bit-Reads r x bits h = bit_on r x bits h.rest r.count h.suffix h.bytes refl h.small h.ahead

pub word_room : (j n : ℕ) → j + n ≤ 64 → 2 ^ j * 2 ^ n ≤ 2 ^ 64
word_room j n l = rw (pow-add j n) (pow-le-pow_right (omega arith) l)

push_bit :
    (j u : ℕ) (x : Bool)
    → j + 1 ≤ 64
    → u < 2 ^ j
    → ((if x then bit_or (shl u 1) 1 else shl u 1) ≡ 2 * u + bit_value x)
      × (2 * u + bit_value x < 2 ^ suc j)
push_bit j u true l b =
    let room : 2 ^ j * 2 ≤ 2 ^ 64 = word_room j 1 l in
    let whole : shl u 1 ≡ u * 2 ^ 1 = omega (arith, room) in
    (rw whole (omega (arith, bit_or_fields 1 u 1 (omega arith))), omega (arith, two-pow-suc j))
push_bit j u false l b =
    let room : 2 ^ j * 2 ≤ 2 ^ 64 = word_room j 1 l in
    (omega (arith, room), omega (arith, two-pow-suc j))

-- Reading bit by bit spells the number that the bits stand for, behind `u`, if it fits a word.
pub read_slow-Reads :
    (p : List Bool) (j u : ℕ) (r : Reader) (bits : List Bool)
    → j + length p ≤ 64
    → u < 2 ^ j
    → Reads r (p ++ bits)
    → (r' : Reader) × (read_slow u (length p) r ≡ ok (value_from u p, r')) × Reads r' bits
unfolding read_slow value_from
read_slow-Reads [] j u r bits l b h = (r, refl, h)
read_slow-Reads (x ∷ p) j u r bits l b h =
    let (r1, e, h1) = read_bit-Reads r x (p ++ bits) h in
    let (pushed, fits) = push_bit j u x (omega arith) b in
    let (r2, e2, h2) =
      read_slow-Reads p (suc j) (2 * u + bit_value x) r1 bits (omega arith) fits h1 in
    (r2, rw e (rw pushed e2), h2)
