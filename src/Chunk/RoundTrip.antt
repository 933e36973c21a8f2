-- ===== src/Chunk/RoundTrip.antt =====
-- A chunk gives back the samples that were appended to it, in order.
use ozymandias.Base.{
  ℕ, zero, suc, ◌+◌, ◌≤◌, ◌<◌, ◌≡◌, ◌≢◌, refl, ap, sym, ◌∙◌, Bool, true, false, Option, none, some,
  List, [], ◌∷◌, ◌++◌, length, drop, ltb, leb, arith, inl,
}
use mathlib.Core.Path.{subst}
use mathlib.Core.List.{append_assoc, append-nil}
use ozymandias.Base.Word.{IsU64, signed_lt}
use ozymandias.Chunk.Stream.{Reader, new_reader, ok}
use ozymandias.Chunk.Bits.{stream_bits}
use ozymandias.Chunk.Stream.Write.{Holds}
use ozymandias.Chunk.Stream.Read.{Reads}
use ozymandias.Chunk.Coder.{Coder, Chunk, new_chunk, start, num_samples, count_of, header_len, own}
use ozymandias.Chunk.Appender.{Appender, done, append}
use ozymandias.Chunk.Iterator.{Iterator, iterator, decode, next, at, drain, appender}
use ozymandias.Chunk.Sealed.{header, Holds-count, Sealed, sealed, new_reader-Reads}
use ozymandias.Chunk.Sample.{
  IsCoder, sample_bits, next_coder, next_coder-IsCoder, next_coder-t, next_coder-v,
}
use ozymandias.Chunk.Sample.Write.{append-Takes}
use ozymandias.Chunk.Sample.Read.{decode-Reads}

-- A caller that appends samples one by one, up to the first that is refused.
unfoldable pub add_all : List (ℕ × ℕ) → Appender → Option Appender
add_all [] a = some a
add_all ((t, v) ∷ ss) a = elim (append a t v) [ done a' ↦ add_all ss a' | _ ↦ none ]

-- A new chunk with these samples.
unfoldable pub encode : List (ℕ × ℕ) → Option Appender
encode ss = elim (appender new_chunk) [ none ↦ none | some a ↦ add_all ss a ]

abbrev pub After : ℕ → List (ℕ × ℕ) → Type 0
After t [] = Unit {0}
After t ((u, v) ∷ ss) = signed_lt t u ≡ true

-- Words, with each time after the one before.
abbrev pub IsSeries : List (ℕ × ℕ) → Type 0
IsSeries [] = Unit {0}
IsSeries ((t, v) ∷ ss) = IsU64 t × IsU64 v × After t ss × IsSeries ss

all_bits : ℕ → Coder → List (ℕ × ℕ) → List Bool
all_bits n s [] = []
all_bits n s ((t, v) ∷ ss) = sample_bits n s t v ++ all_bits (n + 1) (next_coder n s t v) ss

add_all-step :
    (a a' : Appender) (t v : ℕ) (ss : List (ℕ × ℕ))
    → append a t v ≡ done a'
    → add_all ((t, v) ∷ ss) a ≡ add_all ss a'
unfolding add_all
add_all-step a a' t v ss e = rw (add_all, e) refl

abbrev pair : ℕ → ℕ → ℕ × ℕ
pair a b = (a, b)

pair_of : {a b c d : ℕ} → a ≡ c → b ≡ d → pair a b ≡ pair c d
pair_of e f = rw (e, f) refl

add_all-Holds :
    (ss : List (ℕ × ℕ)) (a : Appender) (n : ℕ) (bits : List Bool)
    → n + length ss ≤ 120
    → (n ≢ 0 → After a.coder.t ss)
    → IsSeries ss
    → IsCoder a.coder
    → Holds (header n) a.c.b bits
    → (a' : Appender) × (add_all ss a ≡ some a')
      × Holds (header (n + length ss)) a'.c.b (bits ++ all_bits n a.coder ss)
unfolding add_all all_bits
add_all-Holds [] a n bits l o i h g =
    let same : n + 0 ≡ n = omega arith in (a, refl, rw (same, append-nil) g)
add_all-Holds ((t, v) ∷ ss) a n bits l o (ht, hv, af, i) h g =
    let (a1, e1, enc) =
      append-Takes a n t v bits (unfold num_samples in Holds-count n a.c.b (omega arith) g)
        (omega arith) o h ht hv g in
    let (a2, e2, held) =
      add_all-Holds ss a1 (n + 1) (bits ++ sample_bits n a.coder t v) (omega arith)
        (λ k.
          subst (λ u. After u ss)
            (sym (ap (λ (c : Coder). c.t) enc.state ∙ next_coder-t n a.coder t v)) af)
        i (subst IsCoder (sym enc.state) (next_coder-IsCoder n a.coder t v h ht hv)) enc.held in
    let count : n + 1 + length ss ≡ n + suc (length ss) = omega arith in
    (
      a2,
      add_all-step a a1 t v ss e1 ∙ e2,
      subst (λ k. Holds (header k) a2.c.b (bits ++ all_bits n a.coder ((t, v) ∷ ss))) count
          (subst (Holds (header (n + 1 + length ss)) a2.c.b)
            (append_assoc bits (sample_bits n a.coder t v) _
              ∙ ap (λ c. bits ++ (sample_bits n a.coder t v ++ all_bits (n + 1) c ss)) enc.state)
            held),
    )

-- An iterator in the middle of a chunk.
abbrev midway : ℕ → ℕ → Coder → Reader → Iterator
midway total n s r = record { br = r; total = total; read = n; coder = s; failure = none }

next_midway :
    (total n : ℕ) (s s' : Coder) (r r' : Reader)
    → n < total
    → decode n s r ≡ ok (s', r')
    → next (midway total n s r) ≡ (midway total (n + 1) s' r', true)
unfolding next
next_midway total n s s' r r' l e =
    let more : leb total n ≡ false = ground arith in rw (more, e) refl

next_at_end : (n : ℕ) (s : Coder) (r : Reader) → next (midway n n s r) ≡ (midway n n s r, false)
unfolding next
next_at_end n s r = ground arith

drain-more :
    (f : ℕ) (it it' : Iterator) {ss : List (ℕ × ℕ)} {last : Iterator}
    → next it ≡ (it', true)
    → drain f it' ≡ (ss, last)
    → drain (suc f) it ≡ (at it' ∷ ss, last)
unfolding drain
drain-more f it it' e d = rw (e, d) refl

drain-stop : (f : ℕ) (it it' : Iterator) → next it ≡ (it', false) → drain (suc f) it ≡ ([], it')
unfolding drain
drain-stop f it it' e = rw e refl

drain-Reads :
    (ss : List (ℕ × ℕ)) (f total n : ℕ) (s : Coder) (r : Reader) (pad : List Bool)
    → n + length ss ≡ total
    → length ss < f
    → IsSeries ss
    → IsCoder s
    → Reads r (all_bits n s ss ++ pad)
    → (s' : Coder) × (r' : Reader) × (drain f (midway total n s r) ≡ (ss, midway total total s' r'))
      × Reads r' pad
unfolding all_bits
drain-Reads ss zero total n s r pad e l i h g = absurd (omega arith)
drain-Reads [] (suc f) total n s r pad e l i h g =
    let all : n ≡ total = omega arith in
    (s, r, drain-stop f _ _ (rw all (next_at_end total s r)), g)
drain-Reads ((t, v) ∷ ss) (suc f) total n s r pad e l (ht, hv, af, i) h g =
    let (r1, e1, g1) =
      decode-Reads n s t v r (all_bits (n + 1) (next_coder n s t v) ss ++ pad) h ht hv
        (subst (Reads r) (append_assoc (sample_bits n s t v) _ pad) g) in
    let (s2, r2, e2, g2) =
      drain-Reads ss f total (n + 1) (next_coder n s t v) r1 pad (omega arith) (omega arith) i
        (next_coder-IsCoder n s t v h ht hv) g1 in
    (
      s2,
      r2,
      drain-more f _ _ (next_midway total n s (next_coder n s t v) r r1 (omega arith) e1) e2
          ∙ ap (λ p. (p ∷ ss, midway total total s2 r2))
              (pair_of (next_coder-t n s t v) (next_coder-v n s t v)),
      g2,
    )

iterator_of :
    (c : Chunk) (n : ℕ) (body : List ℕ)
    → c.b.stream ≡ header n ++ body
    → count_of c.b.stream ≡ n
    → iterator c ≡ midway n 0 start (new_reader body)
unfolding iterator num_samples
iterator_of c n body e k =
    let wide : ltb (length c.b.stream) header_len ≡ false = rw e (ground arith) in
    rw (wide, k) (ap (λ t. midway n 0 start (new_reader (drop header_len t))) e)

start-IsCoder : IsCoder start
start-IsCoder = record {
  window = inl refl;
  time = omega arith;
  value = omega arith;
  change = omega arith;
}

-- The appender of a new chunk holds nothing.
abbrev empty_appender : Appender
empty_appender = record {
  c = record { b = record { stream = 0 ∷ 0 ∷ []; count = 0 }; borrowed = false };
  coder = start;
}

appender-new_chunk : appender new_chunk ≡ some empty_appender
unfolding appender new_chunk num_samples count_of own
appender-new_chunk = refl

encode_lem : (ss : List (ℕ × ℕ)) → encode ss ≡ add_all ss empty_appender
unfolding encode add_all
encode_lem ss = rw (encode, appender-new_chunk) refl

-- At most 120 samples of int64 times that rise and of float64 values are all appended to a new
-- chunk, which counts them, and a loop over its iterator returns them in order and ends without a
-- failure.
pub round_trip :
    (ss : List (ℕ × ℕ))
    → IsSeries ss
    → length ss ≤ 120
    → (a : Appender) × (last : Iterator) × (encode ss ≡ some a)
      × (num_samples a.c ≡ length ss)
      × (drain (suc (length ss)) (iterator a.c) ≡ (ss, last))
      × (last.failure ≡ none)
unfolding num_samples stream_bits
round_trip ss i l =
    let n : ℕ = length ss in
    let empty : Holds (header 0) empty_appender.c.b [] = Holds.full [] tt refl refl refl in
    let (a, e, held) =
      add_all-Holds ss empty_appender 0 [] (omega arith) (λ k. absurd (k refl)) i start-IsCoder
        empty in
    let whole : Holds (header n) a.c.b (all_bits 0 start ss) =
      subst (λ k. Holds (header k) a.c.b (all_bits 0 start ss)) (omega arith) held in
    let z : Sealed n a.c.b (all_bits 0 start ss) = sealed n a.c.b whole in
    let count = Holds-count n a.c.b (omega arith) whole in
    let it = iterator_of a.c n z.body z.whole count in
    let (s', r', d, _) =
      drain-Reads ss (suc n) n 0 start (new_reader z.body) z.padding (omega arith) (omega arith) i
        start-IsCoder
        (new_reader-Reads z.body (all_bits 0 start ss ++ z.padding) z.bytes z.spelt) in
    (a, midway n n s' r', encode_lem ss ∙ e, count, ap (drain (suc n)) it ∙ d, refl)
