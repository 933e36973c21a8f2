-- ===== src/LogStore/Sound.antt =====
-- A filter never denies what is in its block.
use ozymandias.Base.{
  ℕ, zero, suc, ◌+◌, ◌*◌, ◌<◌, ◌≤◌, ◌≡◌, refl, sym, ap, ◌∙◌, true, Option, none, some, List, [],
  ◌∷◌, ◌++◌, length, All, InList, arith, ◌==◌, if◌then◌else◌, ◌⊎◌, inl, inr, Bool-cases,
}
use mathlib.Core.Path.{subst}
use ozymandias.Base.Bytes.{Bytes}
use ozymandias.LogStore.{
  bloom_k, min_bloom_bytes, max_bloom_bytes, windows, probes, probes_from, set_bits, all_set,
  is_seen, add_seen, zeros, fill, filter_size, see_texts, see_entries, has, has_all,
}
use ozymandias.LogStore.Bits.{
  IsBytes, Keeps, Keeps-refl, Keeps-trans, set_bits-Keeps, all_set-Keeps, set_bits_sets,
}

probes_from-lt :
    (rounds i h1 h2 m : ℕ) → 0 < m → All (λ (p : ℕ). p < m) (probes_from rounds i h1 h2 m)
unfolding probes_from
probes_from-lt zero i h1 h2 m h = tt
probes_from-lt (suc rounds) i h1 h2 m h =
    (omega (arith, h), probes_from-lt rounds (i + 1) h1 h2 m h)

probes-lt : (t m : ℕ) → 0 < m → All (λ (p : ℕ). p < m) (probes t m)
unfolding probes
probes-lt t m h = probes_from-lt bloom_k 0 _ _ m h

fill-Keeps : (m : ℕ) (bits : Bytes) (ts : List ℕ) → IsBytes bits → Keeps bits (fill m bits ts)
unfolding fill
fill-Keeps m bits [] h = Keeps-refl bits h
fill-Keeps m bits (t ∷ ts) h =
    let first = set_bits-Keeps bits (probes t m) h in
    Keeps-trans first (fill-Keeps m (set_bits bits (probes t m)) ts first.bytes)

fill-has :
    (m : ℕ) (bits : Bytes) (ts : List ℕ) (t : ℕ)
    → IsBytes bits
    → m ≡ length bits * 8
    → 0 < m
    → is_seen t ts ≡ true
    → all_set (fill m bits ts) (probes t m) ≡ true
unfolding fill is_seen
fill-has m bits [] t h e p s = cc
fill-has m bits (u ∷ ts) t h e p s =
    let first = set_bits-Keeps bits (probes u m) h in
    let now = set_bits bits (probes u m) in
    elim (Bool-cases (u == t)) [
      | inl same ↦
          let same' : u ≡ t = ground (arith, same) in
          let here =
            set_bits_sets bits (probes u m) h
              (subst (λ n. All (λ (q : ℕ). q < n) (probes u m)) e (probes-lt u m p)) in
          subst (λ v. all_set (fill m now ts) (probes v m) ≡ true) same'
            (all_set-Keeps (probes u m) (fill-Keeps m now ts first.bytes) here)
      | inr other ↦
          let long = first.as_long in
          fill-has m now ts t first.bytes (omega (arith, e, long)) p (ground (arith, s, other))
    ]

abbrev pub AllSeen : List ℕ → List ℕ → Type 0
AllSeen seen = All (λ (t : ℕ). is_seen t seen ≡ true)

add_seen-keeps :
    (seen ts : List ℕ) (t : ℕ) → is_seen t seen ≡ true → is_seen t (add_seen seen ts) ≡ true
unfolding add_seen is_seen
add_seen-keeps seen [] t h = h
add_seen-keeps seen (u ∷ ts) t h = elim (Bool-cases (is_seen u seen)) [
  | inl old ↦ rw old (add_seen-keeps seen ts t h)
  | inr new ↦ rw new (add_seen-keeps (u ∷ seen) ts t (ground (arith, h)))
]

add_seen-AllSeen : (seen ts : List ℕ) → AllSeen (add_seen seen ts) ts
unfolding add_seen is_seen
add_seen-AllSeen seen [] = tt
add_seen-AllSeen seen (u ∷ ts) =
    let now = if is_seen u seen then seen else u ∷ seen in
    let here : is_seen u now ≡ true = ground arith in
    (add_seen-keeps now ts u here, add_seen-AllSeen now ts)

AllSeen-keeps :
    (xs ys ts : List ℕ)
    → ((t : ℕ) → is_seen t xs ≡ true → is_seen t ys ≡ true)
    → AllSeen xs ts
    → AllSeen ys ts
AllSeen-keeps xs ys [] f h = tt
AllSeen-keeps xs ys (t ∷ ts) f (a, h) = (f t a, AllSeen-keeps xs ys ts f h)

-- The windows of a part of a text are windows of the text.
windows-tail :
    (seen : List ℕ) (x : ℕ) (s : Bytes) → AllSeen seen (windows (x ∷ s)) → AllSeen seen (windows s)
unfolding windows
windows-tail seen x [] h = tt
windows-tail seen x (y ∷ []) h = tt
windows-tail seen x (y ∷ z ∷ s) (a, h) = h

windows-behind :
    (seen : List ℕ) (a s : Bytes) → AllSeen seen (windows (a ++ s)) → AllSeen seen (windows s)
windows-behind seen [] s h = h
windows-behind seen (x ∷ a) s h = windows-behind seen a s (windows-tail seen x (a ++ s) h)

windows-front :
    (seen : List ℕ) (s b : Bytes) → AllSeen seen (windows (s ++ b)) → AllSeen seen (windows s)
unfolding windows
windows-front seen [] b h = tt
windows-front seen (x ∷ []) b h = tt
windows-front seen (x ∷ y ∷ []) b h = tt
windows-front seen (x ∷ y ∷ z ∷ s) b (a, h) = (a, windows-front seen (y ∷ z ∷ s) b h)

-- A text of an entry of the block.
abbrev pub HasText : List (Option (List Bytes)) → Bytes → Type 0
HasText [] s = ⊥
HasText (none ∷ es) s = HasText es s
HasText (some ts ∷ es) s = InList s ts ⊎ HasText es s

module _ (lower : Bytes → Bytes) where
  see_texts-keeps :
      (seen : List ℕ) (ss : List Bytes) (t : ℕ)
      → is_seen t seen ≡ true
      → is_seen t (see_texts lower seen ss) ≡ true
  unfolding see_texts
  see_texts-keeps seen [] t h = h
  see_texts-keeps seen (s ∷ ss) t h =
      see_texts-keeps (add_seen seen (windows (lower s))) ss t
        (add_seen-keeps seen (windows (lower s)) t h)

  see_texts-sees :
      (seen : List ℕ) (ss : List Bytes) (s : Bytes)
      → InList s ss
      → AllSeen (see_texts lower seen ss) (windows (lower s))
  unfolding see_texts
  see_texts-sees seen [] s h = elim h [ ]
  see_texts-sees seen (r ∷ ss) s (inl e) =
      let now = add_seen seen (windows (lower r)) in
      subst (λ q. AllSeen (see_texts lower now ss) (windows (lower q))) e
        (AllSeen-keeps now (see_texts lower now ss) (windows (lower r))
          (λ t h. see_texts-keeps now ss t h) (add_seen-AllSeen seen (windows (lower r))))
  see_texts-sees seen (r ∷ ss) s (inr h) = see_texts-sees (add_seen seen (windows (lower r))) ss s h

  see_entries-keeps :
      (seen : List ℕ) (es : List (Option (List Bytes))) {all : List ℕ} (t : ℕ)
      → see_entries lower seen es ≡ some all
      → is_seen t seen ≡ true
      → is_seen t all ≡ true
  unfolding see_entries
  see_entries-keeps seen [] t e h = ground (arith, e, h)
  see_entries-keeps seen (none ∷ es) t e h = cc
  see_entries-keeps seen (some ts ∷ es) t e h =
      see_entries-keeps (see_texts lower seen ts) es t e (see_texts-keeps seen ts t h)

  see_entries-sees :
      (seen : List ℕ) (es : List (Option (List Bytes))) {all : List ℕ} (s : Bytes)
      → see_entries lower seen es ≡ some all
      → HasText es s
      → AllSeen all (windows (lower s))
  unfolding see_entries
  see_entries-sees seen [] s e h = elim h [ ]
  see_entries-sees seen (none ∷ es) s e h = cc
  see_entries-sees seen (some ts ∷ es) {all} s e (inl h) =
      AllSeen-keeps (see_texts lower seen ts) all (windows (lower s))
        (λ t k. see_entries-keeps (see_texts lower seen ts) es t e k) (see_texts-sees seen ts s h)
  see_entries-sees seen (some ts ∷ es) s e (inr h) =
      see_entries-sees (see_texts lower seen ts) es s e h

  -- A literal stands in some text of the block, in lower case.
  pub record Occurs (es : List (Option (List Bytes))) (lit : Bytes) : Type 0 where
    pub text : Bytes
    pub in_block : HasText es text
    pub front : Bytes
    pub back : Bytes
    pub around : lower text ≡ front ++ (lit ++ back)

  pub Occurs-seen :
      (es : List (Option (List Bytes))) (all : List ℕ) (lit : Bytes)
      → see_entries lower [] es ≡ some all
      → Occurs es lit
      → AllSeen all (windows lit)
  Occurs-seen es all lit e o = windows-front all lit o.back (
      windows-behind all o.front (lit ++ o.back) (
        subst (λ s. AllSeen all (windows s)) o.around (see_entries-sees [] es o.text e o.in_block)))

zeros-IsBytes : (n : ℕ) → IsBytes (zeros n)
unfolding zeros
zeros-IsBytes zero = tt
zeros-IsBytes (suc n) = (omega arith, zeros-IsBytes n)

length-zeros : (n : ℕ) → length (zeros n) ≡ n
unfolding zeros
length-zeros zero = refl
length-zeros (suc n) = omega (arith, length-zeros n)

pub filter_size_bounds :
    (n : ℕ) → (min_bloom_bytes ≤ filter_size n) × (filter_size n ≤ max_bloom_bytes)
unfolding filter_size
filter_size_bounds n = (omega arith, omega arith)

abbrev pub filled : List ℕ → Bytes
filled seen = fill (filter_size (length seen) * 8) (zeros (filter_size (length seen))) seen

filled-Keeps : (seen : List ℕ) → Keeps (zeros (filter_size (length seen))) (filled seen)
filled-Keeps seen =
    fill-Keeps (filter_size (length seen) * 8) (zeros (filter_size (length seen))) seen
      (zeros-IsBytes (filter_size (length seen)))

pub length-filled : (seen : List ℕ) → length (filled seen) ≡ filter_size (length seen)
length-filled seen =
    let k = filled-Keeps seen in k.as_long ∙ length-zeros (filter_size (length seen))

filled-has : (seen : List ℕ) (t : ℕ) → is_seen t seen ≡ true → has (filled seen) t ≡ true
unfolding has
filled-has seen t s =
    let size = filter_size (length seen) in
    let b = filter_size_bounds (length seen) in
    rw (length-filled seen) (
      fill-has (size * 8) (zeros size) seen t (zeros-IsBytes size)
        (ap (λ n. n * 8) (sym (length-zeros size))) (omega (arith, b)) s)

pub has_all-seen : (seen ts : List ℕ) → AllSeen seen ts → has_all (filled seen) ts ≡ true
unfolding has_all
has_all-seen seen [] h = refl
has_all-seen seen (t ∷ ts) (a, h) =
    let here = filled-has seen t a in
    let rest = has_all-seen seen ts h in ground (arith, here, rest)
