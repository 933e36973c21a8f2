-- ===== src/Compact.antt =====
-- internal/tsdb/compact: which blocks are merged, and how the samples of a series are gathered from
-- them. A time is a number of milliseconds since 1970, so none of them is negative. What a block
-- reads from its files is a parameter of it: the keys of its series, and the samples of one, or
-- `none` where reading fails.
pub mod Sorted
pub mod Run
pub mod Planner
pub mod Series
pub mod Gather
mod Tests
use ozymandias.Base.{
  ℕ, zero, suc, ◌+◌, ◌-◌, ◌*◌, ◌/◌, ◌^◌, max, min, Bool, true, false, not, ◌&&◌, ◌||◌, Option, none,
  some, List, [], ◌∷◌, ◌++◌, length, if◌then◌else◌, ltb, leb, ◌==◌, map,
}
use ozymandias.Base.Int.{ℤ, pos, pos_part, leb_ℤ}
use ozymandias.Base.Bytes.{Bytes, bytes_eq, bytes_le}

-- The part of `block.Meta` that the planner reads.
pub record Meta : Type 0 where
  pub ulid : Bytes
  pub min_time : ℕ
  pub max_time : ℕ
  pub level : ℕ
  pub resolution : ℕ

-- `tsdb.Sample`; the value is a bit pattern.
pub record Sample : Type 0 where
  pub t : ℕ
  pub v : ℕ

pub record Block : Type 0 where
  pub meta : Meta
  pub series : List Bytes
  pub samples_for : Bytes → Option (List Sample)

-- `MaxBlockRange` is a Duration in nanoseconds.
pub record Options : Type 0 where
  pub min_blocks : ℤ
  pub max_block_range : ℤ

abbrev pub default_min_blocks : ℕ
default_min_blocks = 3

abbrev pub default_max_block_range : ℕ
default_max_block_range = 54 * 3600 * 10 ^ 9

unfoldable pub set_defaults : Options → Options
set_defaults o = record {
  min_blocks = if leb_ℤ o.min_blocks (pos 0) then pos default_min_blocks else o.min_blocks;
  max_block_range =
      if leb_ℤ o.max_block_range (pos 0) then pos default_max_block_range else o.max_block_range;
}

pub record Plan : Type 0 where
  pub sources : List Block
  pub level : ℕ

-- The loop of `Span`, from the times of the first block.
unfoldable pub span_from : ℕ → ℕ → List Block → ℕ × ℕ
span_from lo hi [] = (lo, hi)
span_from lo hi (b ∷ bs) = span_from (min lo b.meta.min_time) (max hi b.meta.max_time) bs

-- `Span`; a plan without blocks makes the code panic.
unfoldable pub span : List Block → Option (ℕ × ℕ)
span [] = none
span (b ∷ bs) = some (span_from b.meta.min_time b.meta.max_time bs)

-- The order of the `sort.Slice`.
unfoldable pub is_older : Block → Block → Bool
is_older a b =
    if a.meta.min_time == b.meta.min_time
    then not (bytes_le b.meta.ulid a.meta.ulid)
    else ltb a.meta.min_time b.meta.min_time

unfoldable pub insert_block : Block → List Block → List Block
insert_block b [] = b ∷ []
insert_block b (c ∷ cs) =
    let rest = insert_block b cs in if is_older c b then c ∷ rest else b ∷ c ∷ cs

unfoldable pub sort_blocks : List Block → List Block
sort_blocks [] = []
sort_blocks (b ∷ bs) = insert_block b (sort_blocks bs)

unfoldable pub same_kind : Block → Block → Bool
same_kind a b = a.meta.level == b.meta.level && a.meta.resolution == b.meta.resolution

-- The inner loop, from the block `s` with the times of it and of the blocks in `run`.
unfoldable pub extend : ℕ → ℕ → Block → ℕ → List Block → List Block → Option (List Block)
extend wide least s hi run [] = none
extend wide least s hi run (b ∷ bs) = elim (same_kind b s) [
  | false ↦ extend wide least s hi run bs
  | true ↦ elim (ltb wide (max hi b.meta.max_time - s.meta.min_time)) [
    | true ↦ none
    | false ↦ elim (leb least (length (run ++ b ∷ []))) [
      | true ↦ some (run ++ b ∷ [])
      | false ↦ extend wide least s (max hi b.meta.max_time) (run ++ b ∷ []) bs
    ]
  ]
]

-- The outer loop.
unfoldable pub first_plan : ℕ → ℕ → List Block → Option Plan
first_plan wide least [] = none
first_plan wide least (b ∷ bs) = elim (extend wide least b b.meta.max_time (b ∷ []) bs) [
  | none ↦ first_plan wide least bs
  | some run ↦ some (record { sources = run; level = b.meta.level + 1 })
]

-- `Next`
unfoldable pub next_plan : List Block → Options → Option Plan
next_plan blocks opts =
    let o = set_defaults opts in
    first_plan (pos_part o.max_block_range / 10 ^ 6) (pos_part o.min_blocks) (sort_blocks blocks)

unfoldable pub last_time : List Sample → Option ℕ
last_time [] = none
last_time (s ∷ []) = some s.t
last_time (s ∷ r ∷ rs) = last_time (r ∷ rs)

-- The guard against a time that was gathered before.
unfoldable pub is_repeat : List Sample → Sample → Bool
is_repeat out s = elim (last_time out) [ none ↦ false | some t ↦ leb s.t t ]

unfoldable pub add_samples : List Sample → List Sample → List Sample
add_samples out [] = out
add_samples out (s ∷ ss) = add_samples (if is_repeat out s then out else out ++ s ∷ []) ss

-- The loop of `gather` over the sources.
unfoldable pub gather_from : List Sample → List Block → Bytes → Option (List Sample)
gather_from out [] key = some out
gather_from out (b ∷ bs) key = elim (b.samples_for key) [
  | none ↦ none
  | some ss ↦ gather_from (add_samples out ss) bs key
]

unfoldable pub gather : List Block → Bytes → Option (List Sample)
gather sources key = gather_from [] sources key

abbrev pub precedes : Bytes → Option Bytes → Bool
precedes k none = true
precedes k (some key) = not (bytes_le key k)

-- The first inner loop of `mergedSeries`, over what is left of each list: the least of the heads.
unfoldable pub smallest : Option Bytes → List (List Bytes) → Option Bytes
smallest key [] = key
smallest key ([] ∷ ls) = smallest key ls
smallest key ((k ∷ ks) ∷ ls) = smallest (if precedes k key then some k else key) ls

-- The second: each list with this head moves on.
unfoldable pub move_on : Bytes → List (List Bytes) → List (List Bytes)
move_on key [] = []
move_on key ([] ∷ ls) = [] ∷ move_on key ls
move_on key ((k ∷ ks) ∷ ls) = (if bytes_eq k key then ks else k ∷ ks) ∷ move_on key ls

abbrev pub total : List (List Bytes) → ℕ
total [] = 0
total (l ∷ ls) = length l + total ls

-- The outer loop; each round takes at least one key.
unfoldable pub merge_lists : ℕ → List (List Bytes) → List Bytes
merge_lists zero ls = []
merge_lists (suc f) ls = elim (smallest none ls) [
  | none ↦ []
  | some key ↦ key ∷ merge_lists f (move_on key ls)
]

-- The series of the sources; a reference stands for its key.
unfoldable pub merged_series : List Block → List Bytes
merged_series sources =
    let lists = map (λ (b : Block). b.series) sources in merge_lists (total lists) lists

-- The loop of `merge`: what is handed to the writer of the new block, series by series.
unfoldable pub merge_keys : List Block → List Bytes → Option (List (Bytes × List Sample))
merge_keys sources [] = some []
merge_keys sources (k ∷ ks) = elim (gather sources k) [
  | none ↦ none
  | some ss ↦ elim (merge_keys sources ks) [
    | none ↦ none
    | some rest ↦ some (if length ss == 0 then rest else (k, ss) ∷ rest)
  ]
]

-- `Run`, without the writer: `none` where the plan is too small or a source cannot be read.
unfoldable pub run_plan : Plan → Option (List (Bytes × List Sample))
run_plan p =
    if ltb (length p.sources) 2 then none else merge_keys p.sources (merged_series p.sources)
