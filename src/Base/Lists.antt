-- ===== src/Base/Lists.antt =====
-- Lists measured and cut by native numbers, under the library's names.
use Prim.Native.Nat.{ℕ, zero, suc, ◌+◌, ◌-◌, ◌≤◌}
use mathlib.Core.Path.{◌≡◌, refl, ap, ◌∙◌}
use mathlib.Core.List.{List, [], ◌∷◌, ◌++◌}
use mathlib.Core.Option.{Option, none, some}
use mathlib.Core.Logic.{◌⊎◌, inl, inr}
use native.Mathlib.Omega.{arith}

module _ {ℓ} {A : Type ℓ} where
  abbrev pub length : List A → ℕ
  length [] = 0
  length (x ∷ xs) = suc (length xs)

  abbrev pub get_elem? : List A → ℕ → Option A
  get_elem? [] i = none
  get_elem? (x ∷ xs) zero = some x
  get_elem? (x ∷ xs) (suc i) = get_elem? xs i

  abbrev pub take : ℕ → List A → List A
  take zero xs = []
  take (suc n) [] = []
  take (suc n) (x ∷ xs) = x ∷ take n xs

  abbrev pub drop : ℕ → List A → List A
  drop zero xs = xs
  drop (suc n) [] = []
  drop (suc n) (x ∷ xs) = drop n xs

  pub length-append : (xs ys : List A) → length (xs ++ ys) ≡ length xs + length ys
  length-append [] ys = omega arith
  length-append (x ∷ xs) ys = omega (arith, length-append xs ys)

  pub length-drop : (n : ℕ) (xs : List A) → length (drop n xs) ≡ length xs - n
  length-drop zero xs = omega arith
  length-drop (suc n) [] = omega arith
  length-drop (suc n) (x ∷ xs) = omega (arith, length-drop n xs)

  abbrev pub All {κ} : (A → Type κ) → List A → Type κ
  All P [] = Unit {κ}
  All P (x ∷ xs) = P x × All P xs

  pub All-snoc {κ} : (P : A → Type κ) (xs : List A) (x : A) → All P xs → P x → All P (xs ++ x ∷ [])
  All-snoc P [] x h k = (k, tt)
  All-snoc P (y ∷ xs) x (a, h) k = (a, All-snoc P xs x h k)

  pub length-take : (n : ℕ) (xs : List A) → n ≤ length xs → length (take n xs) ≡ n
  length-take zero xs h = refl
  length-take (suc n) [] h = absurd (omega (arith, h))
  length-take (suc n) (x ∷ xs) h = omega (arith, length-take n xs (omega (arith, h)))

  pub take_all : (n : ℕ) (xs : List A) → length xs ≤ n → take n xs ≡ xs
  take_all zero [] h = refl
  take_all zero (x ∷ xs) h = absurd (omega (arith, h))
  take_all (suc n) [] h = refl
  take_all (suc n) (x ∷ xs) h = ap (λ t. x ∷ t) (take_all n xs (omega (arith, h)))

  pub take-append : (xs ys : List A) (n : ℕ) → length xs ≡ n → take n (xs ++ ys) ≡ xs
  take-append [] ys zero h = refl
  take-append [] ys (suc n) h = absurd (omega (arith, h))
  take-append (x ∷ xs) ys zero h = absurd (omega (arith, h))
  take-append (x ∷ xs) ys (suc n) h = ap (λ t. x ∷ t) (take-append xs ys n (omega (arith, h)))

  pub drop-append : (xs ys : List A) (n : ℕ) → length xs ≡ n → drop n (xs ++ ys) ≡ ys
  drop-append [] ys zero h = refl
  drop-append [] ys (suc n) h = absurd (omega (arith, h))
  drop-append (x ∷ xs) ys zero h = absurd (omega (arith, h))
  drop-append (x ∷ xs) ys (suc n) h = drop-append xs ys n (omega (arith, h))

  -- A cut at or behind the first of two lists.
  pub take-append_more :
      (xs ys : List A) (n : ℕ) → length xs ≤ n → take n (xs ++ ys) ≡ xs ++ take (n - length xs) ys
  take-append_more [] ys n h = ap (λ k. take k ys) (omega arith)
  take-append_more (x ∷ xs) ys zero h = absurd (omega (arith, h))
  take-append_more (x ∷ xs) ys (suc n) h =
      ap (λ t. x ∷ t)
        (take-append_more xs ys n (omega (arith, h)) ∙ ap (λ k. xs ++ take k ys) (omega arith))

  -- A cut inside the first.
  pub take-append_less : (xs ys : List A) (n : ℕ) → n ≤ length xs → take n (xs ++ ys) ≡ take n xs
  take-append_less xs ys zero h = refl
  take-append_less [] ys (suc n) h = absurd (omega (arith, h))
  take-append_less (x ∷ xs) ys (suc n) h =
      ap (λ t. x ∷ t) (take-append_less xs ys n (omega (arith, h)))

abbrev pub InList : {A : Type 0} → A → List A → Type 0
InList a [] = ⊥
InList a (x ∷ xs) = (x ≡ a) ⊎ InList a xs

pub InList-front : {A : Type 0} (a : A) (xs ys : List A) → InList a xs → InList a (xs ++ ys)
InList-front a [] ys h = elim h [ ]
InList-front a (x ∷ xs) ys (inl e) = inl e
InList-front a (x ∷ xs) ys (inr h) = inr (InList-front a xs ys h)

pub InList-back : {A : Type 0} (a : A) (xs ys : List A) → InList a ys → InList a (xs ++ ys)
InList-back a [] ys h = h
InList-back a (x ∷ xs) ys h = inr (InList-back a xs ys h)

pub InList-append :
    {A : Type 0} (a : A) (xs ys : List A) → InList a (xs ++ ys) → InList a xs ⊎ InList a ys
InList-append a [] ys h = inr h
InList-append a (x ∷ xs) ys (inl e) = inl (inl e)
InList-append a (x ∷ xs) ys (inr h) = elim (InList-append a xs ys h) [
  | inl k ↦ inl (inr k)
  | inr k ↦ inr k
]
