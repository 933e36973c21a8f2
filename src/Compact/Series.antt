-- ===== src/Compact/Series.antt =====
-- The merged series are those of the sources.
use ozymandias.Base.{
  ℕ, zero, suc, ◌+◌, ◌≤◌, ◌≡◌, ◌≢◌, ◌⊎◌, refl, sym, Bool, true, false, ◌&&◌, ◌||◌, Option, none,
  some, List, [], ◌∷◌, map, if◌then◌else◌, arith, Bool-cases, Option-cases, inl, inr,
}
use ozymandias.Base.Bytes.{Bytes, bytes_eq, bytes_eq_iff}
use ozymandias.Compact.{Block, smallest, move_on, precedes, total, merge_lists, merged_series}

-- Whether a key is in a list, and in one of several.
abbrev pub has_key : Bytes → List Bytes → Bool
has_key k [] = false
has_key k (j ∷ js) = bytes_eq j k || has_key k js

abbrev pub some_has : Bytes → List (List Bytes) → Bool
some_has k [] = false
some_has k (l ∷ ls) = has_key k l || some_has k ls

abbrev is_head : Bytes → List (List Bytes) → Bool
is_head key [] = false
is_head key ([] ∷ ls) = is_head key ls
is_head key ((k ∷ ks) ∷ ls) = bytes_eq k key || is_head key ls

same : (a b : Bytes) → bytes_eq a b ≡ true → a ≡ b
same a b h = (bytes_eq_iff a b).0 h

reflexive : (a : Bytes) → bytes_eq a a ≡ true
reflexive a = (bytes_eq_iff a a).1 refl

never_none : (j : Bytes) (ls : List (List Bytes)) → smallest (some j) ls ≢ none
unfolding smallest
never_none j [] = λ e. absurd (cc)
never_none j ([] ∷ ls) = never_none j ls
never_none j ((k ∷ ks) ∷ ls) = elim (Bool-cases (precedes k (some j))) [
  | inl less ↦ rw less (never_none k ls)
  | inr more ↦ rw more (never_none j ls)
]

nothing_left : (ls : List (List Bytes)) → smallest none ls ≡ none → total ls ≡ 0
unfolding smallest
nothing_left [] e = refl
nothing_left ([] ∷ ls) e = omega (arith, nothing_left ls e)
nothing_left ((k ∷ ks) ∷ ls) e = absurd (never_none k ls e)

smallest_head :
    (key : Option Bytes) (ls : List (List Bytes)) (k : Bytes)
    → smallest key ls ≡ some k
    → (key ≡ some k) ⊎ (is_head k ls ≡ true)
unfolding smallest
smallest_head key [] k e = inl e
smallest_head key ([] ∷ ls) k e = smallest_head key ls k e
smallest_head key ((j ∷ js) ∷ ls) k e = elim (Bool-cases (precedes j key)) [
  | inl less ↦ elim (smallest_head (some j) ls k (rw less at e)) [
    | inl it ↦ let this : j ≡ k = cc in inr (rw (this, reflexive k) refl)
    | inr later ↦ inr (ground (arith, later))
  ]
  | inr more ↦ elim (smallest_head key ls k (rw more at e)) [
    | inl it ↦ inl it
    | inr later ↦ inr (ground (arith, later))
  ]
]

move_on-total :
    (key : Bytes) (ls : List (List Bytes))
    → total (move_on key ls) + (if is_head key ls then 1 else 0) ≤ total ls
unfolding move_on
move_on-total key [] = omega arith
move_on-total key ([] ∷ ls) = omega (arith, move_on-total key ls)
move_on-total key ((k ∷ ks) ∷ ls) = ground (arith, move_on-total key ls)

move_on-has :
    (k key : Bytes) (ls : List (List Bytes))
    → some_has k ls ≡ (is_head key ls && bytes_eq key k || some_has k (move_on key ls))
unfolding move_on
move_on-has k key [] = refl
move_on-has k key ([] ∷ ls) = move_on-has k key ls
move_on-has k key ((j ∷ js) ∷ ls) = ground (arith, same j key, move_on-has k key ls)

none_has : (k : Bytes) (ls : List (List Bytes)) → total ls ≡ 0 → some_has k ls ≡ false
none_has k [] e = refl
none_has k ([] ∷ ls) e = none_has k ls (omega arith)
none_has k ((j ∷ js) ∷ ls) e = absurd (omega arith)

merge_stop :
    (f : ℕ) (ls : List (List Bytes)) → smallest none ls ≡ none → merge_lists (suc f) ls ≡ []
unfolding merge_lists
merge_stop f ls e = rw (merge_lists, e) refl

merge_round :
    (f : ℕ) (ls : List (List Bytes)) (key : Bytes)
    → smallest none ls ≡ some key
    → merge_lists (suc f) ls ≡ key ∷ merge_lists f (move_on key ls)
unfolding merge_lists
merge_round f ls key e = rw (merge_lists, e) refl

head_of_none :
    (ls : List (List Bytes)) (key : Bytes) → smallest none ls ≡ some key → is_head key ls ≡ true
head_of_none ls key e = elim (smallest_head none ls key e) [
  | inl bad ↦ absurd (cc)
  | inr head ↦ head
]

-- With as many rounds as there are keys, the lists are merged to the end.
merge_lists-has :
    (f : ℕ) (k : Bytes) (ls : List (List Bytes))
    → total ls ≤ f
    → has_key k (merge_lists f ls) ≡ some_has k ls
merge_lists-has zero k ls l = unfold merge_lists in sym (none_has k ls (omega arith))
merge_lists-has (suc f) k ls l = elim (Option-cases (smallest none ls)) [
  | inl done ↦ rw (merge_stop f ls done) (sym (none_has k ls (nothing_left ls done)))
  | inr (key, found) ↦
      let head = head_of_none ls key found in
      let fewer = move_on-total key ls in
      rw (merge_round f ls key found) (
        ground (
          arith,
          head,
          merge_lists-has f k (move_on key ls) (ground (arith, head, fewer)),
          move_on-has k key ls,
        ))
]

-- A key is among the merged series exactly when it is among those of one of the sources.
pub merged_series-has :
    (sources : List Block) (k : Bytes)
    → has_key k (merged_series sources) ≡ some_has k (map (λ (b : Block). b.series) sources)
unfolding merged_series
merged_series-has sources k =
    merge_lists-has (total (map (λ (b : Block). b.series) sources)) k
      (map (λ (b : Block). b.series) sources) (omega arith)
