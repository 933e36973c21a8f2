-- ===== src/Index.antt =====
-- internal/tsdb/index/index.go: the sorted lists of ids under an inverted index, and their sets.
-- A slice from an index on is the list behind it. `sort.Search` on a sorted list is the place of the
-- first id that is at least the one searched for.
pub mod Member
pub mod Remove
pub mod Subtract
pub mod Gallop
pub mod Sets
pub mod Merge
pub mod Select
mod Tests
use ozymandias.Base.{
  ℕ, zero, suc, ◌+◌, ◌-◌, ◌*◌, min, Bool, true, false, not, ◌&&◌, ◌||◌, Option, none, some, List,
  [], ◌∷◌, ◌++◌, length, take, drop, get_elem?, if◌then◌else◌, ltb, leb, ◌==◌,
}

-- `sort.Search(len(list), list[i] >= id)`
unfoldable pub search : List ℕ → ℕ → ℕ
search [] id = 0
search (x ∷ xs) id = let rest = search xs id in if leb id x then 0 else suc rest

abbrev pub is_at : Option ℕ → ℕ → Bool
is_at none id = false
is_at (some x) id = x == id

-- No id, or a last one below this one.
unfoldable pub ends_below : List ℕ → ℕ → Bool
ends_below [] id = true
ends_below (x ∷ []) id = ltb x id
ends_below (x ∷ y ∷ ys) id = ends_below (y ∷ ys) id

unfoldable pub append_sorted : List ℕ → ℕ → List ℕ
append_sorted list id =
    let i = search list id in
    if ends_below list id
    then list ++ id ∷ []
    else if is_at (get_elem? list i) id
    then list
    else take i list ++ id ∷ drop i list

unfoldable pub remove_id : List ℕ → ℕ → List ℕ
remove_id list id =
    let i = search list id in
    if is_at (get_elem? list i) id then take i list ++ drop (i + 1) list else list

abbrev pub is_below : Option ℕ → ℕ → Bool
is_below none target = false
is_below (some x) target = ltb x target

-- The loop of `gallop`; `i` rises in each round, so they are at most as many as there are ids.
unfoldable pub gallop_from : ℕ → List ℕ → ℕ → ℕ → ℕ → ℕ × ℕ
gallop_from zero list target i step = (i, step)
gallop_from (suc f) list target i step =
    let more = gallop_from f list target (i + step) (step * 2) in
    if ltb (i + step) (length list) && is_below (get_elem? list (i + step)) target
    then more
    else (i, step)

unfoldable pub gallop : List ℕ → ℕ → ℕ
gallop list target =
    let (i, step) = gallop_from (length list) list target 0 1 in
    let hi = min (i + step + 1) (length list) in i + search (take (hi - i) (drop i list)) target

-- The loop of `intersect`, over what is left of both lists. Each round takes at least one id.
unfoldable pub intersect_from : ℕ → List ℕ → List ℕ → List ℕ
intersect_from zero a b = []
intersect_from (suc f) [] b = []
intersect_from (suc f) (x ∷ a) [] = []
intersect_from (suc f) (x ∷ a) (y ∷ b) = elim (x == y) [
  | true ↦ x ∷ intersect_from f a b
  | false ↦ elim (ltb x y) [
    | true ↦ intersect_from f (drop (gallop (x ∷ a) y) (x ∷ a)) (y ∷ b)
    | false ↦ intersect_from f (x ∷ a) (drop (gallop (y ∷ b) x) (y ∷ b))
  ]
]

unfoldable pub intersect : List ℕ → List ℕ → List ℕ
intersect a b = intersect_from (length a + length b) a b

-- `for j < len(b) && b[j] < id { j++ }`
unfoldable pub skip_below : List ℕ → ℕ → List ℕ
skip_below [] id = []
skip_below (y ∷ b) id = let rest = skip_below b id in if ltb y id then rest else y ∷ b

unfoldable pub subtract : List ℕ → List ℕ → List ℕ
subtract [] b = []
subtract (id ∷ a) b =
    let left = skip_below b id in
    let rest = subtract a left in if is_at (get_elem? left 0) id then rest else id ∷ rest

abbrev pub is_smaller : ℕ → Option ℕ → Bool
is_smaller x none = true
is_smaller x (some best) = ltb x best

-- The first inner loop of `merge`, over what is left of each list: the least first id.
unfoldable pub smallest_id : Option ℕ → List (List ℕ) → Option ℕ
smallest_id best [] = best
smallest_id best ([] ∷ ls) = smallest_id best ls
smallest_id best ((x ∷ xs) ∷ ls) = smallest_id (if is_smaller x best then some x else best) ls

-- The second: each list with this first id moves on.
unfoldable pub move_ids : ℕ → List (List ℕ) → List (List ℕ)
move_ids best [] = []
move_ids best ([] ∷ ls) = [] ∷ move_ids best ls
move_ids best ((x ∷ xs) ∷ ls) = (if x == best then xs else x ∷ xs) ∷ move_ids best ls

abbrev pub total_ids : List (List ℕ) → ℕ
total_ids [] = 0
total_ids (l ∷ ls) = length l + total_ids ls

-- The outer loop; each round takes at least one id.
unfoldable pub merge_from : ℕ → List (List ℕ) → List ℕ
merge_from zero ls = []
merge_from (suc f) ls = elim (smallest_id none ls) [
  | none ↦ []
  | some best ↦ best ∷ merge_from f (move_ids best ls)
]

unfoldable pub merge : List (List ℕ) → List ℕ
merge [] = []
merge (l ∷ []) = l
merge (l ∷ m ∷ ls) = merge_from (total_ids (l ∷ m ∷ ls)) (l ∷ m ∷ ls)
