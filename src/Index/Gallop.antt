-- ===== src/Index/Gallop.antt =====
-- Galloping finds the first id that is at least the target, as stepping does.
use ozymandias.Base.{
  ℕ, zero, suc, ◌+◌, ◌-◌, ◌*◌, ◌≤◌, ◌<◌, ◌≡◌, refl, min, true, false, ◌&&◌, none, some, List, [],
  ◌∷◌, All, length, take, drop, get_elem?, ltb, leb, arith, Bool-cases, Option-cases, inl, inr,
}
use ozymandias.Index.{search, is_below, gallop_from, gallop, skip_below}
use ozymandias.Index.Member.{IsIncreasing, search_here, search_later}

search-le : (xs : List ℕ) (t : ℕ) → search xs t ≤ length xs
unfolding search
search-le [] t = omega arith
search-le (x ∷ xs) t = ground (arith, search-le xs t)

-- An id at a place is below the target just where the place is before the one that is searched.
above_place : (xs : List ℕ) (t j y : ℕ) → get_elem? xs j ≡ some y → t ≤ y → search xs t ≤ j
unfolding search
above_place [] t j y e l = absurd (cc)
above_place (x ∷ xs) t zero y e l = let same : x ≡ y = cc in ground (arith, same)
above_place (x ∷ xs) t (suc j) y e l = ground (arith, above_place xs t j y e l)

elem-above : (xs : List ℕ) (b j y : ℕ) → All (λ (z : ℕ). b < z) xs → get_elem? xs j ≡ some y → b < y
elem-above [] b j y h e = absurd (cc)
elem-above (x ∷ xs) b zero y (a, h) e = let same : x ≡ y = cc in omega (arith, a, same)
elem-above (x ∷ xs) b (suc j) y (a, h) e = elem-above xs b j y h e

below_place :
    (xs : List ℕ) (t j y : ℕ) → IsIncreasing xs → get_elem? xs j ≡ some y → y < t → j < search xs t
unfolding search
below_place [] t j y h e l = absurd (cc)
below_place (x ∷ xs) t zero y h e l = let same : x ≡ y = cc in ground (arith, same)
below_place (x ∷ xs) t (suc j) y (a, h) e l =
    ground (arith, elem-above xs x j y a e, below_place xs t j y h e l)

search-take : (m : ℕ) (xs : List ℕ) (t : ℕ) → search (take m xs) t ≡ min m (search xs t)
unfolding search
search-take zero xs t = omega arith
search-take (suc m) [] t = omega arith
search-take (suc m) (x ∷ xs) t = ground (arith, search-take m xs t)

search-drop :
    (i : ℕ) (xs : List ℕ) (t : ℕ) → i ≤ search xs t → search (drop i xs) t ≡ search xs t - i
unfolding search
search-drop zero xs t l = omega arith
search-drop (suc i) [] t l = omega arith
search-drop (suc i) (x ∷ xs) t l = ground (arith, search-drop i xs t)

-- A place that is reached by a step or two stays within the place that is searched.
abbrev Around : List ℕ → ℕ → ℕ × ℕ → Type 0
Around xs t p = (p.0 ≤ search xs t) × (search xs t ≤ p.0 + p.1)

gallop_from-more :
    (f : ℕ) (xs : List ℕ) (t i step : ℕ)
    → (ltb (i + step) (length xs) && is_below (get_elem? xs (i + step)) t) ≡ true
    → gallop_from (suc f) xs t i step ≡ gallop_from f xs t (i + step) (step * 2)
unfolding gallop_from
gallop_from-more f xs t i step e = rw e refl

gallop_from-stop :
    (f : ℕ) (xs : List ℕ) (t i step : ℕ)
    → (ltb (i + step) (length xs) && is_below (get_elem? xs (i + step)) t) ≡ false
    → gallop_from (suc f) xs t i step ≡ (i, step)
unfolding gallop_from
gallop_from-stop f xs t i step e = rw e refl

reached :
    (xs : List ℕ) (t j : ℕ)
    → IsIncreasing xs
    → (ltb j (length xs) && is_below (get_elem? xs j) t) ≡ true
    → j ≤ search xs t
reached xs t j h e = elim (Option-cases (get_elem? xs j)) [
  | inl nothing ↦ absurd (ground (arith, e, nothing))
  | inr (y, found) ↦
      let low : y < t = ground (arith, e, found) in
      let before = below_place xs t j y h found low in omega (arith, before)
]

no_elem : (xs : List ℕ) (j : ℕ) → get_elem? xs j ≡ none → length xs ≤ j
no_elem [] j e = omega arith
no_elem (x ∷ xs) zero e = absurd (cc)
no_elem (x ∷ xs) (suc j) e = omega (arith, no_elem xs j e)

stopped :
    (xs : List ℕ) (t j : ℕ)
    → (ltb j (length xs) && is_below (get_elem? xs j) t) ≡ false
    → search xs t ≤ j
stopped xs t j e = elim (Option-cases (get_elem? xs j)) [
  | inl nothing ↦ omega (arith, no_elem xs j nothing, search-le xs t)
  | inr (y, found) ↦ elim (Bool-cases (ltb y t)) [
    | inl low ↦ ground (arith, e, found, low, search-le xs t)
    | inr high ↦ above_place xs t j y found (ground (arith, high))
  ]
]

gallop_from-Around :
    (f : ℕ) (xs : List ℕ) (t i step : ℕ)
    → IsIncreasing xs
    → length xs ≤ f + i
    → 1 ≤ step
    → i ≤ search xs t
    → Around xs t (gallop_from f xs t i step)
gallop_from-Around zero xs t i step h l s a =
    unfold gallop_from in (a, omega (arith, search-le xs t))
gallop_from-Around (suc f) xs t i step h l s a =
    elim (Bool-cases (ltb (i + step) (length xs) && is_below (get_elem? xs (i + step)) t)) [
      | inl more ↦ rw (gallop_from-more f xs t i step more) (
          gallop_from-Around f xs t (i + step) (step * 2) h (omega arith) (omega arith)
            (reached xs t (i + step) h more))
      | inr stop ↦ rw (gallop_from-stop f xs t i step stop) (a, stopped xs t (i + step) stop)
    ]

-- On an increasing list, `gallop` finds the first place whose id is at least the target, which is
-- the end of the list where there is none.
pub gallop-search : (xs : List ℕ) (t : ℕ) → IsIncreasing xs → gallop xs t ≡ search xs t
unfolding gallop
gallop-search xs t h =
    let p : ℕ × ℕ = gallop_from (length xs) xs t 0 1 in
    let (lo, up) =
      gallop_from-Around (length xs) xs t 0 1 h (omega arith) (omega arith) (omega arith) in
    let hi : ℕ = min (p.0 + p.1 + 1) (length xs) in
    let found = search-take (hi - p.0) (drop p.0 xs) t in
    let behind = search-drop p.0 xs t lo in omega (arith, lo, up, found, behind, search-le xs t)

pub drop-search : (xs : List ℕ) (t : ℕ) → drop (search xs t) xs ≡ skip_below xs t
unfolding skip_below
drop-search [] t = unfold search in refl
drop-search (x ∷ xs) t = elim (Bool-cases (leb t x)) [
  | inl here ↦
      let high : ltb x t ≡ false = ground (arith, here) in rw (search_here x xs t here, high) refl
  | inr later ↦
      let low : ltb x t ≡ true = ground (arith, later) in
      rw (search_later x xs t later, low) (drop-search xs t)
]
