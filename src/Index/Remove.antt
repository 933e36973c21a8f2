-- ===== src/Index/Remove.antt =====
-- Removing an id from an increasing list.
use ozymandias.Base.{
  ℕ, suc, ◌+◌, ◌<◌, ◌≡◌, refl, ap, ◌∙◌, not, ◌&&◌, List, [], ◌∷◌, All, get_elem?, if◌then◌else◌,
  leb, ◌==◌, arith, Bool-cases, inl, inr,
}
use ozymandias.Index.{search, is_at, remove_id}
use ozymandias.Index.Member.{mem, IsIncreasing, not-mem, if-cons, search_here, search_later}

-- `removeID` as one walk along the list.
abbrev delete : ℕ → List ℕ → List ℕ
delete id [] = []
delete id (x ∷ xs) = if leb id x then (if x == id then xs else x ∷ xs) else x ∷ delete id xs

remove_id-delete : (list : List ℕ) (id : ℕ) → remove_id list id ≡ delete id list
unfolding remove_id
remove_id-delete [] id = unfold search in refl
remove_id-delete (x ∷ xs) id = elim (Bool-cases (leb id x)) [
  | inl here ↦ rw (search_here x xs id here, here) refl
  | inr later ↦
      rw (search_later x xs id later, later)
        (let one : suc (search xs id) + 1 ≡ suc (search xs id + 1) = omega arith in
          rw one (
            if-cons (is_at (get_elem? xs (search xs id)) id) x _ xs
            ∙ ap (λ t. x ∷ t) (remove_id-delete xs id)))
]

delete-below :
    (id b : ℕ) (xs : List ℕ) → All (λ (y : ℕ). b < y) xs → All (λ (y : ℕ). b < y) (delete id xs)
delete-below id b [] h = tt
delete-below id b (x ∷ xs) (a, h) = elim (Bool-cases (leb id x)) [
  | inr later ↦ rw later (a, delete-below id b xs h)
  | inl here ↦ elim (Bool-cases (x == id)) [
    | inl same ↦ rw (here, same) h
    | inr other ↦ rw (here, other) (a, h)
  ]
]

delete-IsIncreasing : (id : ℕ) (xs : List ℕ) → IsIncreasing xs → IsIncreasing (delete id xs)
delete-IsIncreasing id [] h = tt
delete-IsIncreasing id (x ∷ xs) (a, h) = elim (Bool-cases (leb id x)) [
  | inr later ↦ rw later (delete-below id x xs a, delete-IsIncreasing id xs h)
  | inl here ↦ elim (Bool-cases (x == id)) [
    | inl same ↦ rw (here, same) h
    | inr other ↦ rw (here, other) (a, h)
  ]
]

mem-delete :
    (z id : ℕ) (xs : List ℕ) → IsIncreasing xs → mem z (delete id xs) ≡ (not (id == z) && mem z xs)
mem-delete z id [] h = ground arith
mem-delete z id (x ∷ xs) (a, h) =
    ground (arith, mem-delete z id xs h, not-mem id x xs a, not-mem z x xs a)

-- Removing an id from an increasing list leaves an increasing list of the other ids.
pub remove_id-mem :
    (list : List ℕ) (id : ℕ)
    → IsIncreasing list
    → IsIncreasing (remove_id list id)
      × ((z : ℕ) → mem z (remove_id list id) ≡ (not (id == z) && mem z list))
remove_id-mem list id h =
    rw (remove_id-delete list id) (delete-IsIncreasing id list h, λ z. mem-delete z id list h)
