-- ===== src/Index/Select/Lists.antt =====
-- Intersecting all lists of the positive matchers, in any order.
use ozymandias.Base.{
  ℕ, ◌≡◌, refl, ap, ◌∙◌, Bool, true, false, ◌&&◌, List, [], ◌∷◌, All, length, ltb, ◌==◌, arith,
  Bool-cases, inl, inr,
}
use ozymandias.Index.{intersect}
use ozymandias.Index.Member.{mem, IsIncreasing}
use ozymandias.Index.Sets.{intersect-mem}
use ozymandias.Index.Select.{insert_shorter, sort_lists, intersect_all, start_from}

abbrev pub all_mem : ℕ → List (List ℕ) → Bool
all_mem z [] = true
all_mem z (m ∷ ms) = mem z m && all_mem z ms

abbrev pub Same : List ℕ → (ℕ → Bool) → Type 0
Same ids p = IsIncreasing ids × ((z : ℕ) → mem z ids ≡ p z)

all_mem-insert :
    (z : ℕ) (l : List ℕ) (ms : List (List ℕ))
    → all_mem z (insert_shorter l ms) ≡ (mem z l && all_mem z ms)
unfolding insert_shorter
all_mem-insert z l [] = refl
all_mem-insert z l (m ∷ ms) = ground (arith, all_mem-insert z l ms)

all_mem-sort : (z : ℕ) (ms : List (List ℕ)) → all_mem z (sort_lists ms) ≡ all_mem z ms
unfolding sort_lists
all_mem-sort z [] = refl
all_mem-sort z (m ∷ ms) =
    all_mem-insert z m (sort_lists ms) ∙ ap (λ b. mem z m && b) (all_mem-sort z ms)

insert-All :
    (l : List ℕ) (ms : List (List ℕ))
    → IsIncreasing l
    → All IsIncreasing ms
    → All IsIncreasing (insert_shorter l ms)
unfolding insert_shorter
insert-All l [] h hs = (h, tt)
insert-All l (m ∷ ms) h (k, hs) = elim (Bool-cases (ltb (length m) (length l))) [
  | inl longer ↦ rw longer (k, insert-All l ms h hs)
  | inr shorter ↦ rw shorter (h, (k, hs))
]

pub sort-All : (ms : List (List ℕ)) → All IsIncreasing ms → All IsIncreasing (sort_lists ms)
unfolding sort_lists
sort-All [] h = tt
sort-All (m ∷ ms) (h, hs) = insert-All m (sort_lists ms) h (sort-All ms hs)

no_ids : (z : ℕ) (xs : List ℕ) → (length xs == 0) ≡ true → mem z xs ≡ false
no_ids z [] e = refl
no_ids z (x ∷ xs) e = absurd (ground (arith, e))

pub both : (p q r : Bool) {s : Bool} → s ≡ (p && q) → (s && r) ≡ (p && (q && r))
both true q r e = ground (arith, e)
both false q r e = ground (arith, e)

intersect_all-Same :
    (ids : List ℕ) (ms : List (List ℕ))
    → IsIncreasing ids
    → All IsIncreasing ms
    → Same (intersect_all ids ms) (λ z. mem z ids && all_mem z ms)
unfolding intersect_all
intersect_all-Same ids [] h hs = (h, λ z. ground arith)
intersect_all-Same ids (m ∷ ms) h (k, hs) =
    let (inc, is) = intersect-mem ids m h k in
    let (inc', is') = intersect_all-Same (intersect ids m) ms inc hs in
    elim (Bool-cases (length (intersect ids m) == 0)) [
      | inl empty ↦
          rw empty
            (tt, λ z. let out = no_ids z (intersect ids m) empty in ground (arith, out, is z))
      | inr more ↦ rw more (inc', λ z. is' z ∙ both (mem z ids) (mem z m) (all_mem z ms) (is z))
    ]

-- What a base of the search holds: every id, or those of all of the lists.
abbrev pub base : List ℕ → List (List ℕ) → ℕ → Bool
base all [] z = mem z all
base all (m ∷ ms) z = all_mem z (m ∷ ms)

pub start_from-Same :
    (all : List ℕ) (ms : List (List ℕ))
    → IsIncreasing all
    → All IsIncreasing ms
    → Same (start_from all ms) (base all ms)
unfolding start_from
start_from-Same all [] h hs = (h, λ z. refl)
start_from-Same all (m ∷ ms) h (k, hs) = intersect_all-Same m ms k hs

sort_cons :
    (l : List ℕ) (ls : List (List ℕ)) (z : ℕ) (all : List ℕ)
    → base all (insert_shorter l ls) z ≡ all_mem z (insert_shorter l ls)
unfolding insert_shorter
sort_cons l [] z all = refl
sort_cons l (m ∷ ms) z all = elim (Bool-cases (ltb (length m) (length l))) [
  | inl longer ↦ rw longer refl
  | inr shorter ↦ rw shorter refl
]

pub base-sort :
    (all : List ℕ) (ls : List (List ℕ)) (z : ℕ) → base all (sort_lists ls) z ≡ base all ls z
unfolding sort_lists
base-sort all [] z = refl
base-sort all (l ∷ ls) z =
    sort_cons l (sort_lists ls) z all
    ∙ all_mem-insert z l (sort_lists ls)
    ∙ ap (λ b. mem z l && b) (all_mem-sort z ls)

-- Every id of these lists is one of `all`.
abbrev pub Within : List ℕ → List ℕ → Type 0
Within all l = (z : ℕ) → mem z l ≡ true → mem z all ≡ true

pub base-Within :
    (all : List ℕ) (ls : List (List ℕ)) (z : ℕ)
    → All (Within all) ls
    → base all ls z ≡ (mem z all && all_mem z ls)
base-Within all [] z h = ground arith
base-Within all (l ∷ ls) z (k, h) = elim (Bool-cases (mem z l)) [
  | inl e ↦ let there = k z e in rw (e, there) refl
  | inr e ↦ rw e (elim (Bool-cases (mem z all)) [ inl a ↦ rw a refl | inr a ↦ rw a refl ])
]
