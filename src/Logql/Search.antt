-- ===== src/Logql/Search.antt =====
-- internal/query/logql/match.go: the search of a text term. strings.ToLower is a parameter.
use ozymandias.Base.{
  ℕ, ◌+◌, Bool, true, false, ◌&&◌, ◌||◌, Option, none, some, List, [], ◌∷◌, length, drop,
  if◌then◌else◌, ltb, leb, ◌==◌,
}
use ozymandias.Base.Bytes.{Bytes}
use ozymandias.Logql.{Log, any_in_members}

abbrev pub star : ℕ
star = 42

abbrev onto_first : ℕ → List Bytes → List Bytes
onto_first b [] = (b ∷ []) ∷ []
onto_first b (s ∷ ss) = (b ∷ s) ∷ ss

-- `strings.Split(pat, "*")`
unfoldable pub split_stars : Bytes → List Bytes
split_stars [] = [] ∷ []
split_stars (b ∷ s) = let rest = split_stars s in if b == star then [] ∷ rest else onto_first b rest

unfoldable pub non_empty : List Bytes → List Bytes
non_empty [] = []
non_empty ([] ∷ ss) = non_empty ss
non_empty ((b ∷ s) ∷ ss) = (b ∷ s) ∷ non_empty ss

-- `splitWild`
unfoldable pub split_wild : Bytes → List Bytes
unfolding split_stars non_empty
split_wild pat = non_empty (split_stars pat)

-- `lower` of a byte.
unfoldable pub lower_byte : ℕ → ℕ
lower_byte c = if leb 65 c && leb c 90 then c + 32 else c

abbrev pub same_byte : ℕ → ℕ
same_byte c = c

unfoldable pub is_ascii : Bytes → Bool
is_ascii [] = true
is_ascii (b ∷ s) = ltb b 128 && is_ascii s

-- The inner loop of `indexFoldASCII`: the needle stands in front, with the bytes folded.
unfoldable pub starts_with : (ℕ → ℕ) → Bytes → Bytes → Bool
starts_with fold s [] = true
starts_with fold [] (n ∷ needle) = false
starts_with fold (c ∷ s) (n ∷ needle) = fold c == n && starts_with fold s needle

-- The outer loop, at index `i`, with the bytes from there on.
unfoldable pub index_from : (ℕ → ℕ) → ℕ → Bytes → Bytes → Option ℕ
unfolding starts_with
index_from fold i [] needle = if starts_with fold [] needle then some i else none
index_from fold i (c ∷ s) needle =
    let later = index_from fold (i + 1) s needle in
    if starts_with fold (c ∷ s) needle then some i else later

-- The loop over the segments; `strings.Index` folds nothing.
unfoldable pub contains_from : (ℕ → ℕ) → Bytes → ℕ → List Bytes → Bool
unfolding index_from
contains_from fold s from [] = true
contains_from fold s from (seg ∷ segs) = elim (index_from fold from (drop from s) seg) [
  | none ↦ false
  | some i ↦ contains_from fold s (i + length seg) segs
]

module _ (to_lower : Bytes → Bytes) where
  -- `containsWild`
  unfoldable pub contains_wild : Bytes → List Bytes → Bool
  unfolding contains_from is_ascii lower_byte
  contains_wild s segs =
      if is_ascii s
      then contains_from lower_byte s 0 segs
      else contains_from same_byte (to_lower s) 0 segs

  -- `compileText`
  unfoldable pub text_matches : Bytes → Log → Bool
  unfolding contains_wild split_wild any_in_members
  text_matches value l =
      let segs = split_wild (to_lower value) in
      contains_wild l.message segs || any_in_members (λ s. contains_wild s segs) l.attrs
