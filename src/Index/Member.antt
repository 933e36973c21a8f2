-- ===== src/Index/Member.antt =====
-- Membership in increasing lists of ids: what adding, removing and subtracting make of it.
use ozymandias.Base.{
  ℕ, suc, ◌≤◌, ◌<◌, ◌≡◌, refl, ap, ◌∙◌, Bool, true, false, ◌||◌, List, [], ◌∷◌, ◌++◌, All, take,
  drop, get_elem?, if◌then◌else◌, ltb, leb, ◌==◌, arith, Bool-cases, inl, inr,
}
use ozymandias.Index.{search, is_at, ends_below, append_sorted}

abbrev pub mem : ℕ → List ℕ → Bool
mem z [] = false
mem z (x ∷ xs) = x == z || mem z xs

-- Each id is below all behind it.
abbrev pub IsIncreasing : List ℕ → Type 0
IsIncreasing [] = Unit {0}
IsIncreasing (x ∷ xs) = All (λ (y : ℕ). x < y) xs × IsIncreasing xs

-- An id that is in a list is above the bound of all of it.
pub mem-above : (z x : ℕ) (xs : List ℕ) → All (λ (y : ℕ). x < y) xs → mem z xs ≡ true → x < z
mem-above z x [] h e = cc
mem-above z x (y ∷ ys) (a, h) e = elim (Bool-cases (y == z)) [
  | inl here ↦ ground (arith, a, here)
  | inr later ↦ mem-above z x ys h (ground (arith, e, later))
]

pub not-mem : (z x : ℕ) (xs : List ℕ) → All (λ (y : ℕ). x < y) xs → z ≤ x → mem z xs ≡ false
not-mem z x xs h l = elim (Bool-cases (mem z xs)) [
  | inl e ↦ absurd (let up = mem-above z x xs h e in omega (arith, up))
  | inr e ↦ e
]

pub All-below :
    (x y : ℕ) (xs : List ℕ) → x < y → All (λ (z : ℕ). y < z) xs → All (λ (z : ℕ). x < z) xs
All-below x y [] l h = tt
All-below x y (z ∷ zs) l (a, h) = (omega (arith, a), All-below x y zs l h)

-- `appendSorted` as one walk along the list.
abbrev pub insert : ℕ → List ℕ → List ℕ
insert id [] = id ∷ []
insert id (x ∷ xs) = if x == id then x ∷ xs else if ltb id x then id ∷ x ∷ xs else x ∷ insert id xs

abbrev placed : List ℕ → ℕ → List ℕ
placed list id =
    if is_at (get_elem? list (search list id)) id
    then list
    else take (search list id) list ++ id ∷ drop (search list id) list

pub if-cons :
    (b : Bool) (x : ℕ) (xs ys : List ℕ)
    → (if b then x ∷ xs else x ∷ ys) ≡ x ∷ (if b then xs else ys)
if-cons true x xs ys = refl
if-cons false x xs ys = refl

pub search_here : (x : ℕ) (xs : List ℕ) (id : ℕ) → leb id x ≡ true → search (x ∷ xs) id ≡ 0
unfolding search
search_here x xs id e = rw e refl

pub search_later :
    (x : ℕ) (xs : List ℕ) (id : ℕ) → leb id x ≡ false → search (x ∷ xs) id ≡ suc (search xs id)
unfolding search
search_later x xs id e = rw e refl

placed-insert : (list : List ℕ) (id : ℕ) → placed list id ≡ insert id list
placed-insert [] id = unfold search in refl
placed-insert (x ∷ xs) id = elim (Bool-cases (leb id x)) [
  | inl here ↦ rw (search_here x xs id here) (ground (arith, here))
  | inr later ↦
      let other : (x == id) ≡ false = ground (arith, later) in
      let above : ltb id x ≡ false = ground (arith, later) in
      rw (search_later x xs id later, other, above)
        (if-cons (is_at (get_elem? xs (search xs id)) id) x xs _
          ∙ ap (λ t. x ∷ t) (placed-insert xs id))
]

ends_above :
    (x : ℕ) (xs : List ℕ) (id : ℕ) → IsIncreasing (x ∷ xs) → ends_below (x ∷ xs) id ≡ true → x < id
unfolding ends_below
ends_above x [] id h e = ground (arith, e)
ends_above x (y ∷ ys) id ((a, _), h) e = let up = ends_above y ys id h e in omega (arith, a, up)

ends_below-insert :
    (list : List ℕ) (id : ℕ)
    → IsIncreasing list
    → ends_below list id ≡ true
    → list ++ id ∷ [] ≡ insert id list
unfolding ends_below
ends_below-insert [] id h e = refl
ends_below-insert (x ∷ []) id h e = ground (arith, e)
ends_below-insert (x ∷ y ∷ ys) id ((a, _), h) e =
    let rest = ends_below-insert (y ∷ ys) id h e in
    let last = ends_above y ys id h e in
    let other : (x == id) ≡ false = ground (arith, a, last) in
    let above : ltb id x ≡ false = ground (arith, a, last) in
    rw (other, above) (ap (λ t. x ∷ t) rest)

append_sorted-insert :
    (list : List ℕ) (id : ℕ) → IsIncreasing list → append_sorted list id ≡ insert id list
unfolding append_sorted
append_sorted-insert list id h = elim (Bool-cases (ends_below list id)) [
  | inl last ↦ rw last (ends_below-insert list id h last)
  | inr inside ↦ rw inside (placed-insert list id)
]

insert-below :
    (id b : ℕ) (xs : List ℕ)
    → b < id
    → All (λ (y : ℕ). b < y) xs
    → All (λ (y : ℕ). b < y) (insert id xs)
insert-below id b [] l h = (l, tt)
insert-below id b (x ∷ xs) l (a, h) = elim (Bool-cases (x == id)) [
  | inl same ↦ rw same (a, h)
  | inr other ↦ elim (Bool-cases (ltb id x)) [
    | inl front ↦ rw (other, front) (l, (a, h))
    | inr behind ↦ rw (other, behind) (a, insert-below id b xs l h)
  ]
]

insert-IsIncreasing : (id : ℕ) (xs : List ℕ) → IsIncreasing xs → IsIncreasing (insert id xs)
insert-IsIncreasing id [] h = (tt, tt)
insert-IsIncreasing id (x ∷ xs) (a, h) = elim (Bool-cases (x == id)) [
  | inl same ↦ rw same (a, h)
  | inr other ↦ elim (Bool-cases (ltb id x)) [
    | inl front ↦
        rw (other, front)
          ((ground (arith, front), All-below id x xs (ground (arith, front)) a), (a, h))
    | inr behind ↦
        rw (other, behind)
          (insert-below id x xs (ground (arith, other, behind)) a, insert-IsIncreasing id xs h)
  ]
]

mem-insert : (z id : ℕ) (xs : List ℕ) → mem z (insert id xs) ≡ (id == z || mem z xs)
mem-insert z id [] = refl
mem-insert z id (x ∷ xs) = ground (arith, mem-insert z id xs)

-- Adding an id to an increasing list gives an increasing list of its ids and this one, also where
-- the id is there already or comes out of order.
pub append_sorted-mem :
    (list : List ℕ) (id : ℕ)
    → IsIncreasing list
    → IsIncreasing (append_sorted list id)
      × ((z : ℕ) → mem z (append_sorted list id) ≡ (id == z || mem z list))
append_sorted-mem list id h =
    rw (append_sorted-insert list id h) (insert-IsIncreasing id list h, λ z. mem-insert z id list)
