-- ===== src/Compact/Gather.antt =====
-- What is gathered rises in time, and is all of the samples where the sources do not overlap.
use ozymandias.Base.{
  ◌<◌, ◌≡◌, refl, ap, sym, ◌∙◌, false, none, some, List, [], ◌∷◌, ◌++◌, All, arith, Bool-cases,
  Option-cases, inl, inr,
}
use mathlib.Core.List.{append_assoc, append-nil}
use mathlib.Core.Path.{subst}
use ozymandias.Base.Bytes.{Bytes}
use ozymandias.Compact.{Sample, Block, last_time, is_repeat, add_samples, gather_from, gather}

-- Each sample is later than all before it.
abbrev pub IsRising : List Sample → Type 0
IsRising [] = Unit {0}
IsRising (s ∷ ss) = All (λ (r : Sample). s.t < r.t) ss × IsRising ss

abbrev Before : Sample → Sample → Type 0
Before s r = r.t < s.t

weaken-All : (s r : Sample) (xs : List Sample) → r.t < s.t → All (Before r) xs → All (Before s) xs
weaken-All s r [] l h = tt
weaken-All s r (x ∷ xs) l (a, h) = (omega (arith, a), weaken-All s r xs l h)

-- Where `s` is no repeat of what was gathered, it is later than all of it.
later_than_all :
    (s : Sample) (xs : List Sample) → IsRising xs → is_repeat xs s ≡ false → All (Before s) xs
unfolding is_repeat last_time
later_than_all s [] h e = tt
later_than_all s (x ∷ []) h e = (ground (arith, e), tt)
later_than_all s (x ∷ y ∷ ys) ((a, b), h) e =
    let rest = later_than_all s (y ∷ ys) h e in (omega (arith, a, rest.0), rest)

All-snoc_later :
    (s : Sample) (x : Sample) (xs : List Sample)
    → x.t < s.t
    → All (λ (r : Sample). x.t < r.t) xs
    → All (λ (r : Sample). x.t < r.t) (xs ++ s ∷ [])
All-snoc_later s x [] l h = (l, tt)
All-snoc_later s x (y ∷ ys) l (a, h) = (a, All-snoc_later s x ys l h)

snoc-IsRising :
    (s : Sample) (xs : List Sample) → IsRising xs → All (Before s) xs → IsRising (xs ++ s ∷ [])
snoc-IsRising s [] h b = (tt, tt)
snoc-IsRising s (x ∷ xs) (a, h) (l, b) = (All-snoc_later s x xs l a, snoc-IsRising s xs h b)

add_samples-IsRising : (out ss : List Sample) → IsRising out → IsRising (add_samples out ss)
unfolding add_samples
add_samples-IsRising out [] h = h
add_samples-IsRising out (s ∷ ss) h = elim (Bool-cases (is_repeat out s)) [
  | inl again ↦ rw again (add_samples-IsRising out ss h)
  | inr later ↦ rw later (
      add_samples-IsRising (out ++ s ∷ []) ss
        (snoc-IsRising s out h (later_than_all s out h later)))
]

gather_from-step :
    (out ss : List Sample) (b : Block) (bs : List Block) (key : Bytes)
    → b.samples_for key ≡ some ss
    → gather_from out (b ∷ bs) key ≡ gather_from (add_samples out ss) bs key
unfolding gather_from
gather_from-step out ss b bs key e = rw (gather_from, e) refl

gather_from-fails :
    (out : List Sample) (b : Block) (bs : List Block) (key : Bytes)
    → b.samples_for key ≡ none
    → gather_from out (b ∷ bs) key ≡ none
unfolding gather_from
gather_from-fails out b bs key e = rw (gather_from, e) refl

gather_from-IsRising :
    (out : List Sample) (bs : List Block) (key : Bytes) {got : List Sample}
    → IsRising out
    → gather_from out bs key ≡ some got
    → IsRising got
gather_from-IsRising out [] key {got} h e =
    let same : out ≡ got = unfold gather_from in cc in subst IsRising same h
gather_from-IsRising out (b ∷ bs) key {got} h e = elim (Option-cases (b.samples_for key)) [
  | inl failed ↦
      let bad : none ≡ some got = sym (gather_from-fails out b bs key failed) ∙ e in absurd (cc)
  | inr (ss, read) ↦
      gather_from-IsRising (add_samples out ss) bs key (add_samples-IsRising out ss h)
        (sym (gather_from-step out ss b bs key read) ∙ e)
]

-- Whatever the sources hold, and however they overlap, the samples that are gathered of a series
-- rise strictly in time, so a chunk takes them.
pub gather-IsRising :
    (sources : List Block) (key : Bytes) {got : List Sample}
    → gather sources key ≡ some got
    → IsRising got
unfolding gather
gather-IsRising sources key e = gather_from-IsRising [] sources key tt e

not_repeat :
    (s : Sample) (out ss : List Sample) → IsRising (out ++ s ∷ ss) → is_repeat out s ≡ false
unfolding is_repeat last_time
not_repeat s [] ss h = refl
not_repeat s (x ∷ []) ss ((a, _), _) = ground (arith, a)
not_repeat s (x ∷ y ∷ ys) ss (_, h) = not_repeat s (y ∷ ys) ss h

add_samples-append : (out ss : List Sample) → IsRising (out ++ ss) → add_samples out ss ≡ out ++ ss
unfolding add_samples
add_samples-append out [] h = sym (append-nil out)
add_samples-append out (s ∷ ss) h =
    let regrouped = append_assoc out (s ∷ []) ss in
    rw (not_repeat s out ss h)
      (add_samples-append (out ++ s ∷ []) ss (subst IsRising (sym regrouped) h) ∙ regrouped)

-- Each source can be read, and these are all of their samples, source by source.
pub data AllSamples : List Block → Bytes → List Sample → Type 0 where
  no_source : {key : Bytes} → AllSamples [] key []
  source :
      {b : Block} {bs : List Block} {key : Bytes} {ss rest : List Sample}
      → b.samples_for key ≡ some ss
      → AllSamples bs key rest
      → AllSamples (b ∷ bs) key (ss ++ rest)

all_head :
    (x : Sample) (xs ys : List Sample)
    → All (λ (r : Sample). x.t < r.t) (xs ++ ys)
    → All (λ (r : Sample). x.t < r.t) xs
all_head x [] ys h = tt
all_head x (y ∷ xs) ys (a, h) = (a, all_head x xs ys h)

IsRising-head : (xs ys : List Sample) → IsRising (xs ++ ys) → IsRising xs
IsRising-head [] ys h = tt
IsRising-head (x ∷ xs) ys (a, h) = (all_head x xs ys a, IsRising-head xs ys h)

gather_from-all :
    (out : List Sample) {bs : List Block} {key : Bytes} {ss : List Sample}
    → AllSamples bs key ss
    → IsRising (out ++ ss)
    → gather_from out bs key ≡ some (out ++ ss)
gather_from-all out (no_source {key}) h = unfold gather_from in ap some (sym (append-nil out))
gather_from-all out (source {b} {bs} {key} {ss} {rest} e more) h =
    let regrouped = append_assoc out ss rest in
    let all : IsRising ((out ++ ss) ++ rest) = subst IsRising (sym regrouped) h in
    gather_from-step out ss b bs key e
    ∙ ap (λ o. gather_from o bs key)
        (add_samples-append out ss (IsRising-head (out ++ ss) rest all))
    ∙ gather_from-all (out ++ ss) more all
    ∙ ap some regrouped

-- Where every source can be read and their samples rise in time from source to source, all of them
-- are gathered, in order.
pub gather-all :
    {sources : List Block} {key : Bytes} {ss : List Sample}
    → AllSamples sources key ss
    → IsRising ss
    → gather sources key ≡ some ss
unfolding gather
gather-all a h = gather_from-all [] a h
