-- ===== src/Compact/Planner.antt =====
-- What a plan guarantees of the blocks that it merges.
use ozymandias.Base.{
  ℕ, ◌+◌, ◌-◌, ◌/◌, ◌^◌, ◌≤◌, ◌≡◌, refl, ap, sym, ◌∙◌, max, min, none, some, List, [], ◌∷◌, All,
  length, arith, Option-cases, inl, inr,
}
use mathlib.Core.Path.{subst}
use ozymandias.Base.Int.{pos_part}
use ozymandias.Compact.{
  Block, Options, Plan, set_defaults, span_from, span, sort_blocks, extend, first_plan, next_plan,
}
use ozymandias.Compact.Sorted.{IsSorted, sort_blocks-IsSorted}
use ozymandias.Compact.Run.{Joins, IsRun, extend-IsRun}

-- A plan that is worth to run: at least two blocks and at least `least` of them, all of one
-- resolution and of the level below the plan's, whose span is at most `wide`.
pub record IsPlan (wide least : ℕ) (p : Plan) : Type 0 where
  pub lo : ℕ
  pub hi : ℕ
  pub resolution : ℕ
  pub spans : span p.sources ≡ some (lo, hi)
  pub narrow : hi - lo ≤ wide
  pub long : least ≤ length p.sources
  pub two : 2 ≤ length p.sources
  pub same_level : All (λ (b : Block). b.meta.level + 1 ≡ p.level) p.sources
  pub same_resolution : All (λ (b : Block). b.meta.resolution ≡ resolution) p.sources

levels_of :
    (s : Block) (hi : ℕ) (bs : List Block)
    → All (Joins s hi) bs
    → All (λ (b : Block). b.meta.level + 1 ≡ s.meta.level + 1) bs
levels_of s hi [] h = tt
levels_of s hi (b ∷ bs) (a, h) = (ap (λ k. k + 1) a.level, levels_of s hi bs h)

resolutions_of :
    (s : Block) (hi : ℕ) (bs : List Block)
    → All (Joins s hi) bs
    → All (λ (b : Block). b.meta.resolution ≡ s.meta.resolution) bs
resolutions_of s hi [] h = tt
resolutions_of s hi (b ∷ bs) (a, h) = (a.resolution, resolutions_of s hi bs h)

span_from_bounds :
    (s : Block) (hi lo0 hi0 : ℕ) (bs : List Block)
    → s.meta.min_time ≤ lo0
    → hi0 ≤ hi
    → All (Joins s hi) bs
    → (s.meta.min_time ≤ (span_from lo0 hi0 bs).0) × ((span_from lo0 hi0 bs).1 ≤ hi)
unfolding span_from
span_from_bounds s hi lo0 hi0 [] l u h = (l, u)
span_from_bounds s hi lo0 hi0 (b ∷ bs) l u (a, h) =
    span_from_bounds s hi (min lo0 b.meta.min_time) (max hi0 b.meta.max_time) bs
      (omega (arith, a.starts)) (omega (arith, a.ends)) h

run-IsPlan :
    (wide least : ℕ) (s : Block) (run : List Block)
    → IsRun wide least s run
    → IsPlan wide least (record { sources = run; level = s.meta.level + 1 })
unfolding span
run-IsPlan wide least s [] h = absurd (let two = h.two in omega arith)
run-IsPlan wide least s (b ∷ bs) h =
    let (lo, up) =
      span_from_bounds s h.hi b.meta.min_time b.meta.max_time bs h.all.0.starts h.all.0.ends
        h.all.1 in
    let narrow = h.narrow in
    record {
      lo = (span_from b.meta.min_time b.meta.max_time bs).0;
      hi = (span_from b.meta.min_time b.meta.max_time bs).1;
      resolution = s.meta.resolution;
      spans = refl;
      narrow = omega (arith, narrow);
      long = h.long;
      two = h.two;
      same_level = levels_of s h.hi (b ∷ bs) h.all;
      same_resolution = resolutions_of s h.hi (b ∷ bs) h.all;
    }

first_plan-none :
    (wide least : ℕ) (b : Block) (bs : List Block)
    → extend wide least b b.meta.max_time (b ∷ []) bs ≡ none
    → first_plan wide least (b ∷ bs) ≡ first_plan wide least bs
unfolding first_plan
first_plan-none wide least b bs e = rw (first_plan, e) refl

first_plan-some :
    (wide least : ℕ) (b : Block) (bs : List Block) {run : List Block}
    → extend wide least b b.meta.max_time (b ∷ []) bs ≡ some run
    → first_plan wide least (b ∷ bs) ≡ some (record { sources = run; level = b.meta.level + 1 })
unfolding first_plan
first_plan-some wide least b bs e = rw (first_plan, e) refl

alone : (b : Block) → All (Joins b b.meta.max_time) (b ∷ [])
alone b = (record { level = refl; resolution = refl; starts = omega arith; ends = omega arith }, tt)

first_plan-IsPlan :
    (wide least : ℕ) (bs : List Block) {p : Plan}
    → IsSorted bs
    → first_plan wide least bs ≡ some p
    → IsPlan wide least p
first_plan-IsPlan wide least [] h e = absurd (unfold first_plan in cc)
first_plan-IsPlan wide least (b ∷ bs) {p} (a, h) e =
    elim (Option-cases (extend wide least b b.meta.max_time (b ∷ []) bs)) [
      | inl nothing ↦
          first_plan-IsPlan wide least bs h (sym (first_plan-none wide least b bs nothing) ∙ e)
      | inr (run, found) ↦
          let it : some (record { sources = run; level = b.meta.level + 1 }) ≡ some p =
            sym (first_plan-some wide least b bs found) ∙ e in
          let this : record { sources = run; level = b.meta.level + 1 } ≡ p = cc in
          subst (IsPlan wide least) this (
            run-IsPlan wide least b run (
              extend-IsRun wide least b b.meta.max_time (b ∷ []) bs (alone b) (omega arith) a
                found))
    ]

-- Every plan of `Next` merges at least two blocks and at least `MinBlocks` of them, all of one
-- level and one resolution, into a block of the next level that spans at most `MaxBlockRange`, both
-- options with their defaults.
pub next_plan-IsPlan :
    (blocks : List Block) (opts : Options) {p : Plan}
    → next_plan blocks opts ≡ some p
    → IsPlan
        (pos_part (set_defaults opts).max_block_range / 10 ^ 6)
        (pos_part (set_defaults opts).min_blocks)
        p
unfolding next_plan
next_plan-IsPlan blocks opts e =
    first_plan-IsPlan _ _ (sort_blocks blocks) (sort_blocks-IsSorted blocks) e
