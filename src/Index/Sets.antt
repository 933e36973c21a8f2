-- ===== src/Index/Sets.antt =====
-- Intersecting increasing lists.
use ozymandias.Base.{
  ℕ, zero, suc, ◌+◌, ◌≤◌, ◌<◌, ◌≡◌, refl, ap, ◌∙◌, Bool, true, false, ◌&&◌, List, [], ◌∷◌, All,
  length, drop, ltb, leb, ◌==◌, arith, Bool-cases, inl, inr,
}
use ozymandias.Index.{gallop, intersect_from, intersect, skip_below}
use ozymandias.Index.Member.{mem, IsIncreasing, not-mem, mem-above, All-below}
use ozymandias.Index.Subtract.{mem-skip_below, skip_below-IsIncreasing}
use ozymandias.Index.Gallop.{gallop-search, drop-search}

galloped : (xs : List ℕ) (t : ℕ) → IsIncreasing xs → drop (gallop xs t) xs ≡ skip_below xs t
galloped xs t h = ap (λ k. drop k xs) (gallop-search xs t h) ∙ drop-search xs t

-- The three ways of a round.
module _ (f x y : ℕ) (a b : List ℕ) where
  intersect_from-both :
      (x == y) ≡ true → intersect_from (suc f) (x ∷ a) (y ∷ b) ≡ x ∷ intersect_from f a b
  unfolding intersect_from
  intersect_from-both e = rw (intersect_from, e) refl

  intersect_from-left :
      IsIncreasing (x ∷ a)
      → (x == y) ≡ false
      → ltb x y ≡ true
      → intersect_from (suc f) (x ∷ a) (y ∷ b) ≡ intersect_from f (skip_below (x ∷ a) y) (y ∷ b)
  unfolding intersect_from
  intersect_from-left h e l =
      rw (intersect_from, e, l) (ap (λ t. intersect_from f t (y ∷ b)) (galloped (x ∷ a) y h))

  intersect_from-right :
      IsIncreasing (y ∷ b)
      → (x == y) ≡ false
      → ltb x y ≡ false
      → intersect_from (suc f) (x ∷ a) (y ∷ b) ≡ intersect_from f (x ∷ a) (skip_below (y ∷ b) x)
  unfolding intersect_from
  intersect_from-right h e l =
      rw (intersect_from, e, l) (ap (intersect_from f (x ∷ a)) (galloped (y ∷ b) x h))

skip_below-length : (xs : List ℕ) (t : ℕ) → length (skip_below xs t) ≤ length xs
unfolding skip_below
skip_below-length [] t = omega arith
skip_below-length (x ∷ xs) t = ground (arith, skip_below-length xs t)

skip_below-less :
    (x : ℕ) (xs : List ℕ) (t : ℕ) → ltb x t ≡ true → length (skip_below (x ∷ xs) t) ≤ length xs
unfolding skip_below
skip_below-less x xs t l = rw l (skip_below-length xs t)

-- What a list with a first id `y` holds is at least `y`.
mem-least :
    (z y : ℕ) (b : List ℕ) → All (λ (w : ℕ). y < w) b → (leb y z && mem z (y ∷ b)) ≡ mem z (y ∷ b)
mem-least z y b h = ground (arith, not-mem z y b h)

-- The ids of both lists, and all of them above a bound of the first.
abbrev Meets : List ℕ → List ℕ → List ℕ → Type 0
Meets a b c = IsIncreasing c × ((z : ℕ) → mem z c ≡ (mem z a && mem z b))

pub All-of_mem :
    (x : ℕ) (c : List ℕ)
    → IsIncreasing c
    → ((z : ℕ) → mem z c ≡ true → x < z)
    → All (λ (z : ℕ). x < z) c
All-of_mem x [] h k = tt
All-of_mem x (y ∷ c) (a, h) k = let first = k y (ground arith) in (first, All-below x y c first a)

Meets-both :
    (x y : ℕ) (a b c : List ℕ)
    → (x == y) ≡ true
    → IsIncreasing (x ∷ a)
    → Meets a b c
    → Meets (x ∷ a) (y ∷ b) (x ∷ c)
Meets-both x y a b c e (l, h) (inc, m) = (
  (All-of_mem x c inc (λ z k. mem-above z x a l (ground (arith, m z, k))), inc),
  λ z. ground (arith, e, m z),
)

squeeze : (c s p q le : Bool) → c ≡ (s && q) → s ≡ (le && p) → (le && q) ≡ q → c ≡ (p && q)
squeeze c s p q le e f g = ground (arith, e, f, g)

squeeze_right : (c s p q le : Bool) → c ≡ (p && s) → s ≡ (le && q) → (le && p) ≡ p → c ≡ (p && q)
squeeze_right c s p q le e f g = ground (arith, e, f, g)

Meets-left :
    (x y : ℕ) (a b c : List ℕ)
    → IsIncreasing (x ∷ a)
    → IsIncreasing (y ∷ b)
    → Meets (skip_below (x ∷ a) y) (y ∷ b) c
    → Meets (x ∷ a) (y ∷ b) c
Meets-left x y a b c h (l, hb) (inc, m) = (
  inc,
  λ z.
      squeeze (mem z c) (mem z (skip_below (x ∷ a) y)) (mem z (x ∷ a)) (mem z (y ∷ b)) (leb y z)
        (m z) (mem-skip_below z y (x ∷ a) h) (mem-least z y b l),
)

Meets-right :
    (x y : ℕ) (a b c : List ℕ)
    → IsIncreasing (x ∷ a)
    → IsIncreasing (y ∷ b)
    → Meets (x ∷ a) (skip_below (y ∷ b) x) c
    → Meets (x ∷ a) (y ∷ b) c
Meets-right x y a b c (l, ha) h (inc, m) = (
  inc,
  λ z.
      squeeze_right (mem z c) (mem z (skip_below (y ∷ b) x)) (mem z (x ∷ a)) (mem z (y ∷ b))
        (leb x z) (m z) (mem-skip_below z x (y ∷ b) h) (mem-least z x a l),
)

no_right : (z : ℕ) (a : List ℕ) → false ≡ (mem z a && false)
no_right z a = elim (Bool-cases (mem z a)) [ inl e ↦ rw e refl | inr e ↦ rw e refl ]

intersect_from-Meets :
    (f : ℕ) (a b : List ℕ)
    → length a + length b ≤ f
    → IsIncreasing a
    → IsIncreasing b
    → Meets a b (intersect_from f a b)
intersect_from-Meets zero [] b l ha hb = unfold intersect_from in (tt, λ z. refl)
intersect_from-Meets zero (x ∷ a) b l ha hb = absurd (omega arith)
intersect_from-Meets (suc f) [] b l ha hb = unfold intersect_from in (tt, λ z. refl)
intersect_from-Meets (suc f) (x ∷ a) [] l ha hb =
    unfold intersect_from in (tt, λ z. no_right z (x ∷ a))
intersect_from-Meets (suc f) (x ∷ a) (y ∷ b) l ha hb = elim (Bool-cases (x == y)) [
  | inl same ↦ rw (intersect_from-both f x y a b same) (
      Meets-both x y a b (intersect_from f a b) same ha
        (intersect_from-Meets f a b (omega arith) ha.1 hb.1))
  | inr other ↦ elim (Bool-cases (ltb x y)) [
    | inl low ↦ rw (intersect_from-left f x y a b ha other low) (
        Meets-left x y a b (intersect_from f (skip_below (x ∷ a) y) (y ∷ b)) ha hb (
          intersect_from-Meets f (skip_below (x ∷ a) y) (y ∷ b)
            (omega (arith, skip_below-less x a y low)) (skip_below-IsIncreasing y (x ∷ a) ha) hb))
    | inr high ↦
        let below : ltb y x ≡ true = ground (arith, other, high) in
        rw (intersect_from-right f x y a b hb other high) (
          Meets-right x y a b (intersect_from f (x ∷ a) (skip_below (y ∷ b) x)) ha hb (
            intersect_from-Meets f (x ∷ a) (skip_below (y ∷ b) x)
              (omega (arith, skip_below-less y b x below)) ha
              (skip_below-IsIncreasing x (y ∷ b) hb)))
  ]
]

-- The intersection of increasing lists is increasing, and has the ids that are in both.
pub intersect-mem :
    (a b : List ℕ)
    → IsIncreasing a
    → IsIncreasing b
    → IsIncreasing (intersect a b) × ((z : ℕ) → mem z (intersect a b) ≡ (mem z a && mem z b))
unfolding intersect
intersect-mem a b ha hb = intersect_from-Meets (length a + length b) a b (omega arith) ha hb
