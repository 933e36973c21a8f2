-- ===== src/Index/Select/Correct.antt =====
-- `Select` picks the ids whose tags satisfy every matcher.
use ozymandias.Base.{
  ℕ, ◌≡◌, refl, ap, sym, ◌∙◌, Bool, true, false, not, ◌&&◌, ◌||◌, List, [], ◌∷◌, All, length, ◌==◌,
  arith, Bool-cases, inl, inr,
}
use ozymandias.Base.Bytes.{Bytes}
use ozymandias.Index.Member.{mem, IsIncreasing}
use ozymandias.Index.Subtract.{subtract-mem}
use ozymandias.Index.Merge.{some_mem, merge-mem}
use ozymandias.Index.Select.{
  MatchType, equal, not_equal, wildcard, not_wildcard, Matcher, Selector, Lookup, metric_name,
  sort_lists, start_from, matching_lists, union, add_positive, positives, all_positives,
  subtract_one, subtract_all, select,
}
use ozymandias.Index.Select.Lists.{
  all_mem, Same, Within, sort-All, both, start_from-Same, base-sort, base-Within,
}

module _ (glob : Bytes → Bytes → Bool) (l : Lookup) where
  -- What an index keeps: increasing lists of ids that it knows.
  pub record IsIndex : Type 0 where
    pub rising : (key value : Bytes) → IsIncreasing (l.postings key value)
    pub all_rising : IsIncreasing l.all_series
    pub known :
        (key value : Bytes) (z : ℕ)
        → mem z (l.postings key value) ≡ true
        → mem z l.all_series ≡ true

  -- Whether an id is under a value of the key that the pattern matches.
  abbrev pub value_mem : ℕ → Bytes → Bytes → List Bytes → Bool
  value_mem z key p [] = false
  value_mem z key p (v ∷ vs) = glob p v && mem z (l.postings key v) || value_mem z key p vs

  abbrev pub holds : ℕ → MatchType → Bytes → Bytes → Bool
  holds z equal key v = mem z (l.postings key v)
  holds z not_equal key v = not (mem z (l.postings key v))
  holds z wildcard key p = value_mem z key p (l.tag_values key)
  holds z not_wildcard key p = not (value_mem z key p (l.tag_values key))

  abbrev pub all_hold : ℕ → List Matcher → Bool
  all_hold z [] = true
  all_hold z (m ∷ ms) = holds z m.match_type m.key m.value && all_hold z ms

  -- The ids that the index knows, of the metric if one is named, that satisfy every matcher.
  abbrev pub picks : Selector → ℕ → Bool
  picks sel z =
      mem z l.all_series
      && (length sel.metric == 0 || mem z (l.postings metric_name sel.metric))
      && all_hold z sel.matchers

  lists-Same :
      (h : IsIndex) (key p : Bytes) (vs : List Bytes)
      → All IsIncreasing (matching_lists glob l key p vs)
        × ((z : ℕ) → some_mem z (matching_lists glob l key p vs) ≡ value_mem z key p vs)
  unfolding matching_lists
  lists-Same h key p [] = (tt, λ z. refl)
  lists-Same h key p (v ∷ vs) =
      let (inc, is) = lists-Same h key p vs in
      elim (Bool-cases (glob p v)) [
        | inl fits ↦
            rw fits ((h.rising key v, inc), λ z. ap (λ b. mem z (l.postings key v) || b) (is z))
        | inr misses ↦ rw misses (inc, is)
      ]

  union-Same :
      (h : IsIndex) (key p : Bytes)
      → Same (union glob l key p) (λ z. value_mem z key p (l.tag_values key))
  unfolding union
  union-Same h key p =
      let (inc, is) = lists-Same h key p (l.tag_values key) in
      let (inc', is') = merge-mem (matching_lists glob l key p (l.tag_values key)) inc in
      (inc', λ z. is' z ∙ is z)

  value_mem-known :
      (h : IsIndex) (z : ℕ) (key p : Bytes) (vs : List Bytes)
      → value_mem z key p vs ≡ true
      → mem z l.all_series ≡ true
  value_mem-known h z key p [] e = absurd (cc)
  value_mem-known h z key p (v ∷ vs) e = elim (Bool-cases (mem z (l.postings key v))) [
    | inl here ↦ h.known key v z here
    | inr there ↦ value_mem-known h z key p vs (ground (arith, e, there))
  ]

  -- The parts of the conjunction that are asked first, and last.
  abbrev asks : ℕ → MatchType → Bytes → Bytes → Bool
  asks z equal key v = mem z (l.postings key v)
  asks z wildcard key p = value_mem z key p (l.tag_values key)
  asks z _ key v = true

  abbrev bars : ℕ → MatchType → Bytes → Bytes → Bool
  bars z not_equal key v = not (mem z (l.postings key v))
  bars z not_wildcard key p = not (value_mem z key p (l.tag_values key))
  bars z _ key v = true

  abbrev all_ask : ℕ → List Matcher → Bool
  all_ask z [] = true
  all_ask z (m ∷ ms) = asks z m.match_type m.key m.value && all_ask z ms

  abbrev all_bar : ℕ → List Matcher → Bool
  all_bar z [] = true
  all_bar z (m ∷ ms) = bars z m.match_type m.key m.value && all_bar z ms

  asks_and_bars :
      (z : ℕ) (t : MatchType) (key v : Bytes) → (asks z t key v && bars z t key v) ≡ holds z t key v
  asks_and_bars z equal key v = ground arith
  asks_and_bars z not_equal key v = refl
  asks_and_bars z wildcard key v = ground arith
  asks_and_bars z not_wildcard key v = refl

  interleave :
      (p q p' q' : Bool) {h h' : Bool}
      → (p && q) ≡ h
      → (p' && q') ≡ h'
      → ((p && p') && (q && q')) ≡ (h && h')
  interleave p q p' q' e f = ground (arith, e, f)

  all_hold-split : (z : ℕ) (ms : List Matcher) → (all_ask z ms && all_bar z ms) ≡ all_hold z ms
  all_hold-split z [] = refl
  all_hold-split z (m ∷ ms) =
      interleave (asks z m.match_type m.key m.value) (bars z m.match_type m.key m.value)
        (all_ask z ms) (all_bar z ms) (asks_and_bars z m.match_type m.key m.value)
        (all_hold-split z ms)

  -- Lists that are increasing and known, with the ids of all of them.
  abbrev Lists : List (List ℕ) → (ℕ → Bool) → Type 0
  Lists ls p = All IsIncreasing ls × All (Within l.all_series) ls × ((z : ℕ) → all_mem z ls ≡ p z)

  add_positive-Lists :
      (h : IsIndex) (t : MatchType) (key v : Bytes) (ls : List (List ℕ)) (p : ℕ → Bool)
      → Lists ls p
      → Lists (add_positive glob l t key v ls) (λ z. asks z t key v && p z)
  unfolding add_positive
  add_positive-Lists h equal key v ls p (a, b, c) =
      ((h.rising key v, a), (h.known key v, b), λ z. ap (λ k. mem z (l.postings key v) && k) (c z))
  add_positive-Lists h wildcard key v ls p (a, b, c) =
      let (inc, is) = union-Same h key v in
      (
        (inc, a),
        (λ z e. value_mem-known h z key v (l.tag_values key) (sym (is z) ∙ e), b),
        λ z. ap (λ k. mem z (union glob l key v) && k) (c z) ∙ ap (λ k. k && p z) (is z),
      )
  add_positive-Lists h not_equal key v ls p k = k
  add_positive-Lists h not_wildcard key v ls p k = k

  positives-Lists :
      (h : IsIndex) (ms : List Matcher) → Lists (positives glob l ms) (λ z. all_ask z ms)
  unfolding positives
  positives-Lists h [] = (tt, tt, λ z. refl)
  positives-Lists h (m ∷ ms) =
      add_positive-Lists h m.match_type m.key m.value (positives glob l ms) (λ z. all_ask z ms)
        (positives-Lists h ms)

  all_positives-Lists :
      (h : IsIndex) (sel : Selector)
      → Lists (all_positives glob l sel) (λ z.
        (length sel.metric == 0 || mem z (l.postings metric_name sel.metric))
        && all_ask z sel.matchers)
  unfolding all_positives
  all_positives-Lists h sel =
      let (a, b, c) = positives-Lists h sel.matchers in
      elim (Bool-cases (length sel.metric == 0)) [
        | inl unnamed ↦ rw unnamed (a, b, c)
        | inr named ↦ rw named (
          (h.rising metric_name sel.metric, a),
          (h.known metric_name sel.metric, b),
          λ z. ap (λ k. mem z (l.postings metric_name sel.metric) && k) (c z),
        )
      ]

  subtract_one-Same :
      (h : IsIndex) (t : MatchType) (key v : Bytes) (ids : List ℕ)
      → IsIncreasing ids
      → Same (subtract_one glob l t key v ids) (λ z. mem z ids && bars z t key v)
  unfolding subtract_one
  subtract_one-Same h equal key v ids i = (i, λ z. ground arith)
  subtract_one-Same h wildcard key v ids i = (i, λ z. ground arith)
  subtract_one-Same h not_equal key v ids i = subtract-mem ids (l.postings key v) i (h.rising key v)
  subtract_one-Same h not_wildcard key v ids i =
      let (inc, is) = union-Same h key v in
      let (inc', is') = subtract-mem ids (union glob l key v) i inc in
      (inc', λ z. is' z ∙ ap (λ k. mem z ids && not k) (is z))

  subtract_all-Same :
      (h : IsIndex) (ids : List ℕ) (ms : List Matcher)
      → IsIncreasing ids
      → Same (subtract_all glob l ids ms) (λ z. mem z ids && all_bar z ms)
  unfolding subtract_all
  subtract_all-Same h ids [] i = (i, λ z. ground arith)
  subtract_all-Same h ids (m ∷ ms) i =
      let (inc, is) = subtract_one-Same h m.match_type m.key m.value ids i in
      let (inc', is') =
        subtract_all-Same h (subtract_one glob l m.match_type m.key m.value ids) ms inc in
      (
        inc',
        λ z. is' z ∙ both (mem z ids) (bars z m.match_type m.key m.value) (all_bar z ms) (is z),
      )

  regroup :
      (a m p q : Bool) {b h : Bool} → b ≡ (a && (m && p)) → (p && q) ≡ h → (b && q) ≡ (a && m && h)
  regroup a m p q e f = ground (arith, e, f)

  -- On an index whose lists are increasing and have only ids that it knows, `Select` gives, in
  -- increasing order, exactly the ids that it knows, of the metric if one is named, that satisfy
  -- every matcher, whatever the order in which the lists are intersected.
  pub select-mem :
      (h : IsIndex) (sel : Selector)
      → IsIncreasing (select glob l sel) × ((z : ℕ) → mem z (select glob l sel) ≡ picks sel z)
  unfolding select
  select-mem h sel =
      let ls : List (List ℕ) = all_positives glob l sel in
      let (a, b, c) = all_positives-Lists h sel in
      let (inc, is) = start_from-Same l.all_series (sort_lists ls) h.all_rising (sort-All ls a) in
      let (inc', is') =
        subtract_all-Same h (start_from l.all_series (sort_lists ls)) sel.matchers inc in
      (
        inc',
        λ z.
            is' z
            ∙ regroup (mem z l.all_series)
                (length sel.metric == 0 || mem z (l.postings metric_name sel.metric))
                (all_ask z sel.matchers) (all_bar z sel.matchers)
                (is z
                  ∙ base-sort l.all_series ls z
                  ∙ base-Within l.all_series ls z b
                  ∙ ap (λ k. mem z l.all_series && k) (c z))
                (all_hold-split z sel.matchers),
      )
