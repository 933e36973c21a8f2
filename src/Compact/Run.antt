-- ===== src/Compact/Run.antt =====
-- The runs of blocks that the inner loop of the planner finds.
use ozymandias.Base.{
  ℕ, ◌-◌, ◌≤◌, ◌≡◌, refl, sym, ◌∙◌, max, true, false, none, some, List, [], ◌∷◌, ◌++◌, All,
  All-snoc, length, length-append, ltb, leb, arith, Bool-cases, inl, inr,
}
use mathlib.Core.Path.{subst}
use ozymandias.Compact.{Block, same_kind, extend}

-- A block that may stand in a run from `s` which ends at `hi`.
pub record Joins (s : Block) (hi : ℕ) (b : Block) : Type 0 where
  pub level : b.meta.level ≡ s.meta.level
  pub resolution : b.meta.resolution ≡ s.meta.resolution
  pub starts : s.meta.min_time ≤ b.meta.min_time
  pub ends : b.meta.max_time ≤ hi

Joins-later :
    (s : Block) (hi hi' : ℕ) (bs : List Block)
    → hi ≤ hi'
    → All (Joins s hi) bs
    → All (Joins s hi') bs
Joins-later s hi hi' [] l h = tt
Joins-later s hi hi' (b ∷ bs) l (a, h) = (
  record {
    level = a.level;
    resolution = a.resolution;
    starts = a.starts;
    ends = omega (arith, a.ends);
  },
  Joins-later s hi hi' bs l h,
)

-- A run that is long enough and not too wide.
pub record IsRun (wide least : ℕ) (s : Block) (run : List Block) : Type 0 where
  pub hi : ℕ
  pub all : All (Joins s hi) run
  pub narrow : hi - s.meta.min_time ≤ wide
  pub long : least ≤ length run
  pub two : 2 ≤ length run

-- The four ways of a round of the inner loop.
module _ (wide least : ℕ) (s : Block) (hi : ℕ) (run : List Block) (b : Block)
    (bs : List Block) where
  extend_skip :
      same_kind b s ≡ false → extend wide least s hi run (b ∷ bs) ≡ extend wide least s hi run bs
  unfolding extend
  extend_skip k = rw (extend, k) refl

  extend_wide :
      same_kind b s ≡ true
      → ltb wide (max hi b.meta.max_time - s.meta.min_time) ≡ true
      → extend wide least s hi run (b ∷ bs) ≡ none
  unfolding extend
  extend_wide k w = rw (extend, k, w) refl

  extend_done :
      same_kind b s ≡ true
      → ltb wide (max hi b.meta.max_time - s.meta.min_time) ≡ false
      → leb least (length (run ++ b ∷ [])) ≡ true
      → extend wide least s hi run (b ∷ bs) ≡ some (run ++ b ∷ [])
  unfolding extend
  extend_done k w l = rw (extend, k, w, l) refl

  extend_more :
      same_kind b s ≡ true
      → ltb wide (max hi b.meta.max_time - s.meta.min_time) ≡ false
      → leb least (length (run ++ b ∷ [])) ≡ false
      → extend wide least s hi run (b ∷ bs)
        ≡ extend wide least s (max hi b.meta.max_time) (run ++ b ∷ []) bs
  unfolding extend
  extend_more k w l = rw (extend, k, w, l) refl

joined :
    (s b : Block) (hi : ℕ) (run : List Block)
    → same_kind b s ≡ true
    → s.meta.min_time ≤ b.meta.min_time
    → All (Joins s hi) run
    → All (Joins s (max hi b.meta.max_time)) (run ++ b ∷ [])
unfolding same_kind
joined s b hi run k st h =
    let hi' : ℕ = max hi b.meta.max_time in
    All-snoc (Joins s hi') run b (Joins-later s hi hi' run (omega arith) h) (record {
      level = ground (arith, k);
      resolution = ground (arith, k);
      starts = st;
      ends = omega arith;
    })

pub extend-IsRun :
    (wide least : ℕ) (s : Block) (hi : ℕ) (run bs : List Block) {got : List Block}
    → All (Joins s hi) run
    → 1 ≤ length run
    → All (λ (c : Block). s.meta.min_time ≤ c.meta.min_time) bs
    → extend wide least s hi run bs ≡ some got
    → IsRun wide least s got
extend-IsRun wide least s hi run [] h one a e = absurd (unfold extend in cc)
extend-IsRun wide least s hi run (b ∷ bs) {got} h one (st, a) e =
    let len = length-append run (b ∷ []) in
    elim (Bool-cases (same_kind b s)) [
      | inr other ↦
          extend-IsRun wide least s hi run bs h one a
            (sym (extend_skip wide least s hi run b bs other) ∙ e)
      | inl same ↦ elim (Bool-cases (ltb wide (max hi b.meta.max_time - s.meta.min_time))) [
        | inl w ↦
            let bad : none ≡ some got = sym (extend_wide wide least s hi run b bs same w) ∙ e in
            absurd (cc)
        | inr narrow ↦ elim (Bool-cases (leb least (length (run ++ b ∷ [])))) [
          | inl long ↦
              let found : some (run ++ b ∷ []) ≡ some got =
                sym (extend_done wide least s hi run b bs same narrow long) ∙ e in
              let these : run ++ b ∷ [] ≡ got = cc in
              subst (IsRun wide least s) these (record {
                hi = max hi b.meta.max_time;
                all = joined s b hi run same st h;
                narrow = ground (arith, narrow);
                long = ground (arith, long);
                two = omega (arith, len);
              })
          | inr short ↦
              extend-IsRun wide least s (max hi b.meta.max_time) (run ++ b ∷ []) bs
                (joined s b hi run same st h) (omega (arith, len)) a
                (sym (extend_more wide least s hi run b bs same narrow short) ∙ e)
        ]
      ]
    ]
