-- ===== src/Chunk/Refusal.antt =====
-- When `Append` refuses a sample.
use ozymandias.Base.{
  ℕ, ◌≤◌, ◌<◌, ◌≡◌, ◌↔◌, ◌⊎◌, refl, ap, Bool, true, false, leb, ◌==◌, if◌then◌else◌, arith, inl,
  inr, Bool-cases,
}
use ozymandias.Base.Word.{signed_lt}
use ozymandias.Chunk.Coder.{num_samples}
use ozymandias.Chunk.Appender.{Appender, Appended, done, chunk_full, not_after, append, commit}

verdict : Appended → ℕ
verdict (done a) = 0
verdict chunk_full = 1
verdict not_after = 2

full_way : (a : Appender) (t v : ℕ) → 120 ≤ num_samples a.c → append a t v ≡ chunk_full
unfolding append
full_way a t v l = let test : leb 120 (num_samples a.c) ≡ true = ground arith in rw test refl

late_way :
    (a : Appender) (t v : ℕ)
    → num_samples a.c < 120
    → 0 < num_samples a.c
    → signed_lt a.coder.t t ≡ false
    → append a t v ≡ not_after
unfolding append
late_way a t v l p o =
    let test : leb 120 (num_samples a.c) ≡ false = ground arith in
    let some_in : (num_samples a.c == 0) ≡ false = ground arith in rw (test, some_in, o) refl

taken_way :
    (a : Appender) (t v : ℕ)
    → num_samples a.c < 120
    → (num_samples a.c == 0) ≡ true ⊎ (signed_lt a.coder.t t ≡ true)
    → verdict (append a t v) ≡ 0
unfolding append commit verdict
taken_way a t v l (inl e) =
    let test : leb 120 (num_samples a.c) ≡ false = ground arith in rw (test, e) refl
taken_way a t v l (inr o) =
    let test : leb 120 (num_samples a.c) ≡ false = ground arith in
    elim (Bool-cases (num_samples a.c == 0)) [
      | inl e ↦ rw (test, e) refl
      | inr e ↦ elim (Bool-cases (num_samples a.c == 1)) [
        | inl one ↦ rw (test, e, o, one) refl
        | inr many ↦ rw (test, e, o, many) refl
      ]
    ]

verdict-append :
    (a : Appender) (t v : ℕ)
    → verdict (append a t v) ≡ (
        if leb 120 (num_samples a.c)
        then 1
        else if num_samples a.c == 0
        then 0
        else if signed_lt a.coder.t t
        then 0
        else 2)
unfolding verdict
verdict-append a t v = elim (Bool-cases (leb 120 (num_samples a.c))) [
  | inl full ↦ rw full (ap verdict (full_way a t v (ground (arith, full))))
  | inr room ↦ elim (Bool-cases (num_samples a.c == 0)) [
    | inl empty ↦ rw (room, empty) (taken_way a t v (ground (arith, room)) (inl empty))
    | inr some_in ↦ elim (Bool-cases (signed_lt a.coder.t t)) [
      | inl later ↦ rw (room, some_in, later) (taken_way a t v (ground (arith, room)) (inr later))
      | inr late ↦
          rw (room, some_in, late)
            (ap verdict (late_way a t v (ground (arith, room)) (ground (arith, some_in)) late))
    ]
  ]
]

read_table :
    (n v : ℕ) (b : Bool)
    → v ≡ (if leb 120 n then 1 else if n == 0 then 0 else if b then 0 else 2)
    → (v ≡ 1 → 120 ≤ n) × (v ≡ 2 → (n < 120) × (0 < n) × (b ≡ false))
read_table n v true e = (λ k. ground (arith, e), λ k. absurd (ground (arith, e)))
read_table n v false e = (λ k. ground (arith, e), λ k. (ground (arith, e), ground (arith, e), refl))

-- `Append` fails with "chunk full" exactly where the chunk has 120 samples or more, and with "not
-- after" exactly where it has fewer, but at least one, and the time is not after the last one.
pub refusals :
    (a : Appender) (t v : ℕ)
    → (append a t v ≡ chunk_full ↔ 120 ≤ num_samples a.c)
      × (append a t v ≡ not_after
          ↔ (num_samples a.c < 120) × (0 < num_samples a.c) × (signed_lt a.coder.t t ≡ false))
unfolding verdict
refusals a t v =
    let (full, late) =
      read_table (num_samples a.c) (verdict (append a t v)) (signed_lt a.coder.t t)
        (verdict-append a t v) in
    (
      (λ e. full (ap verdict e), full_way a t v),
      (λ e. late (ap verdict e), λ (l, p, o). late_way a t v l p o),
    )
