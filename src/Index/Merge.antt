-- ===== src/Index/Merge.antt =====
-- The union of increasing lists.
use ozymandias.Base.{
  ℕ, zero, suc, ◌+◌, ◌≤◌, ◌<◌, ◌≡◌, ◌≢◌, ◌⊎◌, refl, ap, sym, ◌∙◌, Bool, true, false, ◌&&◌, ◌||◌,
  Option, none, some, List, [], ◌∷◌, All, if◌then◌else◌, ltb, ◌==◌, arith, Bool-cases, Option-cases,
  inl, inr,
}
use ozymandias.Index.{smallest_id, is_smaller, move_ids, total_ids, merge_from, merge}
use ozymandias.Index.Member.{mem, IsIncreasing, not-mem}
use ozymandias.Index.Sets.{All-of_mem}

abbrev pub some_mem : ℕ → List (List ℕ) → Bool
some_mem z [] = false
some_mem z (l ∷ ls) = mem z l || some_mem z ls

abbrev is_first : ℕ → List (List ℕ) → Bool
is_first k [] = false
is_first k ([] ∷ ls) = is_first k ls
is_first k ((x ∷ xs) ∷ ls) = x == k || is_first k ls

never_none : (j : ℕ) (ls : List (List ℕ)) → smallest_id (some j) ls ≢ none
unfolding smallest_id
never_none j [] = λ e. absurd (cc)
never_none j ([] ∷ ls) = never_none j ls
never_none j ((k ∷ ks) ∷ ls) = elim (Bool-cases (is_smaller k (some j))) [
  | inl less ↦ rw less (never_none k ls)
  | inr more ↦ rw more (never_none j ls)
]

nothing_left : (ls : List (List ℕ)) → smallest_id none ls ≡ none → total_ids ls ≡ 0
unfolding smallest_id
nothing_left [] e = refl
nothing_left ([] ∷ ls) e = omega (arith, nothing_left ls e)
nothing_left ((k ∷ ks) ∷ ls) e = absurd (never_none k ls e)

-- The id that is found is a first one, or the one that was there, and no first one is less.
record Found (acc : Option ℕ) (ls : List (List ℕ)) (k : ℕ) : Type 0 where
  first : (acc ≡ some k) ⊎ (is_first k ls ≡ true)
  bounded : (j : ℕ) → acc ≡ some j → k ≤ j
  least : (z : ℕ) → some_mem z ls ≡ true → k ≤ z

-- Nothing in an increasing list is less than its first id.
first_least : (z x : ℕ) (xs : List ℕ) → All (λ (y : ℕ). x < y) xs → mem z (x ∷ xs) ≡ true → x ≤ z
first_least z x xs h e = ground (arith, e, not-mem z x xs h)

Found-with :
    (acc c : Option ℕ) (x : ℕ) (xs : List ℕ) (ls : List (List ℕ)) (k : ℕ)
    → All (λ (y : ℕ). x < y) xs
    → (c ≡ some x) ⊎ (c ≡ acc)
    → k ≤ x
    → ((j : ℕ) → acc ≡ some j → k ≤ j)
    → Found c ls k
    → Found acc ((x ∷ xs) ∷ ls) k
Found-with acc c x xs ls k h via low bounded f = record {
  first = elim f.first [
    | inr later ↦ inr (ground (arith, later))
    | inl e ↦ elim via [
      | inl it ↦ let same : x ≡ k = cc in inr (ground (arith, same))
      | inr it ↦ inl (sym it ∙ e)
    ]
  ];
  bounded = bounded;
  least = λ z m. elim (Bool-cases (mem z (x ∷ xs))) [
    | inl here ↦ let up = first_least z x xs h here in omega (arith, low, up)
    | inr there ↦ f.least z (rw there at m)
  ];
}

Found-step :
    (acc : Option ℕ) (x : ℕ) (xs : List ℕ) (ls : List (List ℕ)) (k : ℕ)
    → All (λ (y : ℕ). x < y) xs
    → Found (if is_smaller x acc then some x else acc) ls k
    → Found acc ((x ∷ xs) ∷ ls) k
Found-step none x xs ls k h f =
    Found-with none (some x) x xs ls k h (inl refl) (f.bounded x refl) (λ j e. absurd (cc)) f
Found-step (some j) x xs ls k h f = elim (Bool-cases (ltb x j)) [
  | inl less ↦
      let g : Found (some x) ls k = rw less at f in
      let low = g.bounded x refl in
      Found-with (some j) (some x) x xs ls k h (inl refl) low
        (λ j' e. let same : j ≡ j' = cc in ground (arith, low, less, same)) g
  | inr more ↦
      let g : Found (some j) ls k = rw more at f in
      let low = g.bounded j refl in
      Found-with (some j) (some j) x xs ls k h (inr refl) (ground (arith, low, more))
        (λ j' e. let same : j ≡ j' = cc in omega (arith, low, same)) g
]

found :
    (acc : Option ℕ) (ls : List (List ℕ)) (k : ℕ)
    → All IsIncreasing ls
    → smallest_id acc ls ≡ some k
    → Found acc ls k
unfolding smallest_id
found acc [] k h e = record {
  first = inl e;
  bounded = λ j e'. let same : k ≡ j = cc in omega (arith, same);
  least = λ z m. absurd (cc);
}
found acc ([] ∷ ls) k (_, h) e =
    let f = found acc ls k h e in record { first = f.first; bounded = f.bounded; least = f.least }
found acc ((x ∷ xs) ∷ ls) k ((a, _), h) e =
    Found-step acc x xs ls k a (found (if is_smaller x acc then some x else acc) ls k h e)

move_ids-total :
    (k : ℕ) (ls : List (List ℕ))
    → total_ids (move_ids k ls) + (if is_first k ls then 1 else 0) ≤ total_ids ls
unfolding move_ids
move_ids-total k [] = omega arith
move_ids-total k ([] ∷ ls) = omega (arith, move_ids-total k ls)
move_ids-total k ((x ∷ xs) ∷ ls) = ground (arith, move_ids-total k ls)

move_ids-mem :
    (z k : ℕ) (ls : List (List ℕ))
    → some_mem z ls ≡ (is_first k ls && k == z || some_mem z (move_ids k ls))
unfolding move_ids
move_ids-mem z k [] = refl
move_ids-mem z k ([] ∷ ls) = move_ids-mem z k ls
move_ids-mem z k ((x ∷ xs) ∷ ls) = ground (arith, move_ids-mem z k ls)

move_ids-IsIncreasing :
    (k : ℕ) (ls : List (List ℕ)) → All IsIncreasing ls → All IsIncreasing (move_ids k ls)
unfolding move_ids
move_ids-IsIncreasing k [] h = tt
move_ids-IsIncreasing k ([] ∷ ls) (_, h) = (tt, move_ids-IsIncreasing k ls h)
move_ids-IsIncreasing k ((x ∷ xs) ∷ ls) ((a, i), h) = elim (Bool-cases (x == k)) [
  | inl same ↦ rw same (i, move_ids-IsIncreasing k ls h)
  | inr other ↦ rw other ((a, i), move_ids-IsIncreasing k ls h)
]

-- No list has the id any more after all have moved on from it, where none starts bounded it.
gone :
    (k : ℕ) (ls : List (List ℕ))
    → All IsIncreasing ls
    → ((z : ℕ) → some_mem z ls ≡ true → k ≤ z)
    → some_mem k (move_ids k ls) ≡ false
unfolding move_ids
gone k [] h l = refl
gone k ([] ∷ ls) (_, h) l = gone k ls h l
gone k ((x ∷ xs) ∷ ls) ((a, i), h) l =
    let low : k ≤ x = l x (ground arith) in
    let rest = gone k ls h (λ z m. l z (ground (arith, m))) in
    ground (arith, low, rest, not-mem k x xs a)

merge_from-stop :
    (f : ℕ) (ls : List (List ℕ)) → smallest_id none ls ≡ none → merge_from (suc f) ls ≡ []
unfolding merge_from
merge_from-stop f ls e = rw (merge_from, e) refl

merge_from-round :
    (f : ℕ) (ls : List (List ℕ)) (k : ℕ)
    → smallest_id none ls ≡ some k
    → merge_from (suc f) ls ≡ k ∷ merge_from f (move_ids k ls)
unfolding merge_from
merge_from-round f ls k e = rw (merge_from, e) refl

none_mem : (z : ℕ) (ls : List (List ℕ)) → total_ids ls ≡ 0 → some_mem z ls ≡ false
none_mem z [] e = refl
none_mem z ([] ∷ ls) e = none_mem z ls (omega arith)
none_mem z ((x ∷ xs) ∷ ls) e = absurd (omega arith)

abbrev Unites : List (List ℕ) → List ℕ → Type 0
Unites ls c = IsIncreasing c × ((z : ℕ) → mem z c ≡ some_mem z ls)

Unites-round :
    (k : ℕ) (ls : List (List ℕ)) (c : List ℕ)
    → All IsIncreasing ls
    → Found none ls k
    → Unites (move_ids k ls) c
    → Unites ls (k ∷ c)
Unites-round k ls c h f (inc, m) =
    let head : is_first k ls ≡ true = elim f.first [ inl e ↦ absurd (cc) | inr e ↦ e ] in
    let out = gone k ls h f.least in
    (
      (
        All-of_mem k c inc (λ z in_c.
            let later : some_mem z (move_ids k ls) ≡ true = sym (m z) ∙ in_c in
            let low = f.least z (ground (arith, later, move_ids-mem z k ls)) in
            elim (Bool-cases (k == z)) [
              | inl same ↦
                  let eq : k ≡ z = ground (arith, same) in
                  let again : some_mem k (move_ids k ls) ≡ true =
                    ap (λ t. some_mem t (move_ids k ls)) eq ∙ later in
                  absurd (cc)
              | inr other ↦ ground (arith, low, other)
            ]),
        inc,
      ),
      λ z. ground (arith, head, m z, move_ids-mem z k ls),
    )

merge_from-Unites :
    (f : ℕ) (ls : List (List ℕ))
    → total_ids ls ≤ f
    → All IsIncreasing ls
    → Unites ls (merge_from f ls)
merge_from-Unites zero ls l h = unfold merge_from in (tt, λ z. sym (none_mem z ls (omega arith)))
merge_from-Unites (suc f) ls l h = elim (Option-cases (smallest_id none ls)) [
  | inl done ↦ rw (merge_from-stop f ls done) (tt, λ z. sym (none_mem z ls (nothing_left ls done)))
  | inr (k, e) ↦
      let g = found none ls k h e in
      let head : is_first k ls ≡ true = elim g.first [ inl bad ↦ absurd (cc) | inr it ↦ it ] in
      rw (merge_from-round f ls k e) (
        Unites-round k ls (merge_from f (move_ids k ls)) h g (
          merge_from-Unites f (move_ids k ls) (ground (arith, head, move_ids-total k ls))
            (move_ids-IsIncreasing k ls h)))
]

or_false : (b : Bool) → b ≡ (b || false)
or_false true = refl
or_false false = refl

-- The union of increasing lists is increasing, and has the ids that are in one of them.
pub merge-mem :
    (ls : List (List ℕ))
    → All IsIncreasing ls
    → IsIncreasing (merge ls) × ((z : ℕ) → mem z (merge ls) ≡ some_mem z ls)
unfolding merge
merge-mem [] h = (tt, λ z. refl)
merge-mem (l ∷ []) (h, _) = (h, λ z. or_false (mem z l))
merge-mem (l ∷ m ∷ ls) h = merge_from-Unites (total_ids (l ∷ m ∷ ls)) (l ∷ m ∷ ls) (omega arith) h
