-- ===== src/Index/Subtract.antt =====
-- What is left of an increasing list without the ids of another.
use ozymandias.Base.{
  ℕ, ◌<◌, ◌≡◌, refl, ◌∙◌, not, ◌&&◌, List, [], ◌∷◌, All, get_elem?, if◌then◌else◌, ltb, leb, arith,
  Bool-cases, inl, inr,
}
use ozymandias.Index.{is_at, skip_below, subtract}
use ozymandias.Index.Member.{mem, IsIncreasing, not-mem}

pub mem-skip_below :
    (z id : ℕ) (b : List ℕ) → IsIncreasing b → mem z (skip_below b id) ≡ (leb id z && mem z b)
unfolding skip_below
mem-skip_below z id [] h = ground arith
mem-skip_below z id (y ∷ b) (a, h) = ground (arith, mem-skip_below z id b h, not-mem z y b a)

pub skip_below-IsIncreasing :
    (id : ℕ) (b : List ℕ) → IsIncreasing b → IsIncreasing (skip_below b id)
unfolding skip_below
skip_below-IsIncreasing id [] h = tt
skip_below-IsIncreasing id (y ∷ b) (a, h) = elim (Bool-cases (ltb y id)) [
  | inl low ↦ rw low (skip_below-IsIncreasing id b h)
  | inr high ↦ rw high (a, h)
]

head_is :
    (id : ℕ) (b : List ℕ) → IsIncreasing b → is_at (get_elem? (skip_below b id) 0) id ≡ mem id b
unfolding skip_below
head_is id [] h = refl
head_is id (y ∷ b) (a, h) = elim (Bool-cases (ltb y id)) [
  | inl low ↦ rw low (head_is id b h ∙ ground (arith, low))
  | inr high ↦ rw high (ground (arith, high, not-mem id y b a))
]

subtract-step :
    (id : ℕ) (a b : List ℕ)
    → IsIncreasing b
    → subtract (id ∷ a) b
      ≡ (if mem id b then subtract a (skip_below b id) else id ∷ subtract a (skip_below b id))
unfolding subtract
subtract-step id a b h = rw (head_is id b h) refl

mem-subtract :
    (z : ℕ) (a b : List ℕ)
    → IsIncreasing a
    → IsIncreasing b
    → mem z (subtract a b) ≡ (mem z a && not (mem z b))
mem-subtract z [] b ha hb = unfold subtract in refl
mem-subtract z (id ∷ a) b (l, ha) hb = rw (subtract-step id a b hb) (
    ground (
      arith,
      mem-subtract z a (skip_below b id) ha (skip_below-IsIncreasing id b hb),
      mem-skip_below z id b hb,
      not-mem z id a l,
    ))

subtract-below :
    (x : ℕ) (a b : List ℕ)
    → IsIncreasing b
    → All (λ (y : ℕ). x < y) a
    → All (λ (y : ℕ). x < y) (subtract a b)
subtract-below x [] b hb l = unfold subtract in tt
subtract-below x (id ∷ a) b hb (h, l) =
    let rest = subtract-below x a (skip_below b id) (skip_below-IsIncreasing id b hb) l in
    elim (Bool-cases (mem id b)) [
      | inl out ↦ rw (subtract-step id a b hb, out) rest
      | inr kept ↦ rw (subtract-step id a b hb, kept) (h, rest)
    ]

subtract-IsIncreasing :
    (a b : List ℕ) → IsIncreasing a → IsIncreasing b → IsIncreasing (subtract a b)
subtract-IsIncreasing [] b ha hb = unfold subtract in tt
subtract-IsIncreasing (id ∷ a) b (l, ha) hb =
    let hs = skip_below-IsIncreasing id b hb in
    let rest = subtract-IsIncreasing a (skip_below b id) ha hs in
    elim (Bool-cases (mem id b)) [
      | inl out ↦ rw (subtract-step id a b hb, out) rest
      | inr kept ↦
          rw (subtract-step id a b hb, kept) (subtract-below id a (skip_below b id) hs l, rest)
    ]

-- The difference of increasing lists is increasing, and has the ids of the first that are not in
-- the second.
pub subtract-mem :
    (a b : List ℕ)
    → IsIncreasing a
    → IsIncreasing b
    → IsIncreasing (subtract a b) × ((z : ℕ) → mem z (subtract a b) ≡ (mem z a && not (mem z b)))
subtract-mem a b ha hb = (subtract-IsIncreasing a b ha hb, λ z. mem-subtract z a b ha hb)
