-- ===== src/Chunk/Sealed.antt =====
-- Between writing and reading: the bits that a writer holds lie ahead of a reader of its bytes,
-- with the free bits of the last byte behind them; and a new count in the header moves nothing.
use ozymandias.Base.{
  ℕ, suc, ◌+◌, ◌*◌, ◌/◌, ◌%◌, ◌^◌, ◌<◌, ◌≡◌, refl, ap, sym, ◌∙◌, Bool, List, [], ◌∷◌, ◌++◌, All,
  All-snoc, arith,
}
use mathlib.Core.List.{append_assoc, append-nil}
use native.Mathlib.Nat.{mul-lt-mul_of_pos_right, add-zero}
use ozymandias.Base.Word.{IsByte}
use ozymandias.Base.Word.Power.{pow-add, two-pow-pos}
use ozymandias.Chunk.Bits.{bits_of, stream_bits, bits_of_split}
use ozymandias.Chunk.Stream.{Writer, new_reader}
use ozymandias.Chunk.Stream.Write.{Holds, stream_bits-snoc}
use ozymandias.Chunk.Stream.Read.{Reads, remaining-full}
use ozymandias.Chunk.Coder.{put_count, count_of}

-- The header of a chunk of `n` samples.
abbrev pub header : ℕ → List ℕ
header n = n / 256 % 256 ∷ n % 256 ∷ []

put_count-behind : (n m : ℕ) (xs : List ℕ) → put_count n (header m ++ xs) ≡ header n ++ xs
unfolding put_count
put_count-behind n m xs = refl

pub put_count-Holds :
    (n m : ℕ) (w : Writer) {bits : List Bool}
    → Holds (header m) w bits
    → Holds (header n) (record { stream = put_count n w.stream; count = w.count }) bits
put_count-Holds n m w (Holds.full init by st co g) =
    Holds.full init by (ap (put_count n) st ∙ put_count-behind n m init) co g
put_count-Holds n m w (Holds.part init k v by st s p f g) =
    Holds.part init k v by (ap (put_count n) st ∙ put_count-behind n m _) s p f g

counted : (n : ℕ) (xs : List ℕ) → n < 65536 → count_of (header n ++ xs) ≡ n
unfolding count_of
counted n xs h = omega arith

pub Holds-count :
    (n : ℕ) (w : Writer) {bits : List Bool}
    → n < 65536
    → Holds (header n) w bits
    → count_of w.stream ≡ n
Holds-count n w l (Holds.full init by st co g) = ap count_of st ∙ counted n _ l
Holds-count n w l (Holds.part init k v by st s p f g) = ap count_of st ∙ counted n _ l

-- The bytes behind the header, and what stands in them behind the bits.
pub record Sealed (n : ℕ) (w : Writer) (bits : List Bool) : Type 0 where
  pub body : List ℕ
  pub padding : List Bool
  pub whole : w.stream ≡ header n ++ body
  pub bytes : All IsByte body
  pub spelt : stream_bits body ≡ bits ++ padding

padded : (k c v : ℕ) → k + c ≡ 8 → v < 2 ^ k → bits_of 8 (v * 2 ^ c) ≡ bits_of k v ++ bits_of c 0
padded k c v e f =
    ap (λ m. bits_of m (v * 2 ^ c)) (sym e)
    ∙ ap (bits_of (k + c)) (sym (add-zero (v * 2 ^ c)))
    ∙ bits_of_split k c v 0 f (two-pow-pos c)

pub sealed : (n : ℕ) (w : Writer) {bits : List Bool} → Holds (header n) w bits → Sealed n w bits
sealed n w (Holds.full init by st co g) = record {
  body = init;
  padding = [];
  whole = st;
  bytes = by;
  spelt = sym g ∙ sym (append-nil _);
}
sealed n w (Holds.part init k v by st s p f g) =
    let small : v * 2 ^ w.count < 256 = omega (
      arith,
      mul-lt-mul_of_pos_right {k = 2 ^ w.count} f (two-pow-pos w.count),
      pow-add (suc k) w.count,
      ap (λ t. 2 ^ t) s,
    ) in
    record {
      body = init ++ (v * 2 ^ w.count) ∷ [];
      padding = bits_of w.count 0;
      whole = st;
      bytes = All-snoc IsByte init (v * 2 ^ w.count) by small;
      spelt =
          stream_bits-snoc init (v * 2 ^ w.count)
          ∙ ap (λ t. stream_bits init ++ t) (padded (suc k) w.count v s f)
          ∙ sym (append_assoc (stream_bits init) (bits_of (suc k) v) (bits_of w.count 0))
          ∙ ap (λ t. t ++ bits_of w.count 0) (sym g);
    }

-- A new reader of bytes has all of their bits ahead.
pub new_reader-Reads :
    (body : List ℕ) (bits : List Bool)
    → All IsByte body
    → stream_bits body ≡ bits
    → Reads (new_reader body) bits
unfolding new_reader
new_reader-Reads body bits by e = record {
  rest = body;
  suffix = refl;
  bytes = by;
  small = omega arith;
  ahead = sym e ∙ sym (remaining-full body by);
}
