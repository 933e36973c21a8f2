-- ===== src/Compact/Tests.antt =====
-- The planner and the merge on three small blocks, and one that interleaves with them.
use ozymandias.Base.{ℕ, ◌*◌, ◌^◌, ◌≡◌, refl, some, List, [], ◌∷◌, map, if◌then◌else◌, arith}
use ozymandias.Base.Int.{pos, negsuc}
use ozymandias.Base.Bytes.{bytes_eq, bytes_le}
use ozymandias.Compact.{
  Meta, Sample, Block, Options, Plan, set_defaults, is_older, insert_block, sort_blocks, same_kind,
  extend, first_plan, next_plan, last_time, is_repeat, add_samples, gather_from, gather, smallest,
  move_on, merge_lists, merged_series, merge_keys, run_plan,
}
use ozymandias.Compact.Planner.{IsPlan, next_plan-IsPlan}
use ozymandias.Compact.Gather.{IsRising, AllSamples, no_source, source, gather-IsRising, gather-all}
use ozymandias.Compact.Series.{has_key, some_has, merged_series-has}

abbrev sample_at : ℕ → ℕ → Sample
sample_at t v = record { t = t; v = v }

abbrev meta_of : ℕ → ℕ → ℕ → ℕ → Meta
meta_of lo hi level resolution = record {
  ulid = lo ∷ [];
  min_time = lo;
  max_time = hi;
  level = level;
  resolution = resolution;
}

-- A series of the key "a" with these samples.
abbrev holding : Meta → List Sample → Block
holding m ss = record {
  meta = m;
  series = (97 ∷ []) ∷ [];
  samples_for = λ key. if bytes_eq key (97 ∷ []) then some ss else some [];
}

abbrev first : Block
first = holding (meta_of 0 10 0 10) (sample_at 1 5 ∷ sample_at 9 6 ∷ [])

abbrev second : Block
second = holding (meta_of 10 20 0 10) (sample_at 12 7 ∷ [])

abbrev third : Block
third = holding (meta_of 20 30 0 10) (sample_at 25 8 ∷ [])

-- Beside `second`, of another resolution.
abbrev rollup : Block
rollup = holding (meta_of 10 20 0 300) (sample_at 12 7 ∷ [])

-- All of `first` again, and one sample more.
abbrev again : Block
again = holding (meta_of 0 15 0 10) (sample_at 1 5 ∷ sample_at 9 6 ∷ sample_at 12 7 ∷ [])

abbrev defaults : Options
defaults = record { min_blocks = pos 0; max_block_range = negsuc 0 }

abbrev blocks : List Block
blocks = third ∷ rollup ∷ second ∷ first ∷ []

abbrev plan : Plan
plan = record { sources = first ∷ second ∷ third ∷ []; level = 1 }

planned : next_plan blocks defaults ≡ some plan
unfolding bytes_le set_defaults is_older insert_block sort_blocks same_kind extend first_plan
    next_plan
planned = refl

ran :
    run_plan plan
    ≡ some ((97 ∷ [], sample_at 1 5 ∷ sample_at 9 6 ∷ sample_at 12 7 ∷ sample_at 25 8 ∷ []) ∷ [])
unfolding bytes_le bytes_eq last_time is_repeat add_samples gather_from gather smallest move_on
    merge_lists merged_series merge_keys run_plan
ran = refl

next_plan-IsPlan_example : IsPlan (54 * 3600 * 10 ^ 3) 3 plan
unfolding set_defaults
next_plan-IsPlan_example = next_plan-IsPlan blocks defaults planned

overlapping :
    gather (first ∷ again ∷ []) (97 ∷ [])
    ≡ some (sample_at 1 5 ∷ sample_at 9 6 ∷ sample_at 12 7 ∷ [])
unfolding bytes_eq last_time is_repeat add_samples gather_from gather
overlapping = refl

gather-IsRising_example : IsRising (sample_at 1 5 ∷ sample_at 9 6 ∷ sample_at 12 7 ∷ [])
gather-IsRising_example = gather-IsRising (first ∷ again ∷ []) (97 ∷ []) overlapping

two_sources :
    AllSamples (first ∷ second ∷ []) (97 ∷ []) (sample_at 1 5 ∷ sample_at 9 6 ∷ sample_at 12 7 ∷ [])
unfolding bytes_eq
two_sources =
    source {ss = sample_at 1 5 ∷ sample_at 9 6 ∷ []} {rest = sample_at 12 7 ∷ []} refl
      (source {ss = sample_at 12 7 ∷ []} {rest = []} refl no_source)

two_rise : IsRising (sample_at 1 5 ∷ sample_at 9 6 ∷ sample_at 12 7 ∷ [])
two_rise = ((omega arith, (omega arith, tt)), ((omega arith, tt), (tt, tt)))

gather-all_example :
    gather (first ∷ second ∷ []) (97 ∷ [])
    ≡ some (sample_at 1 5 ∷ sample_at 9 6 ∷ sample_at 12 7 ∷ [])
gather-all_example = gather-all two_sources two_rise

merged_series-has_example :
    has_key (97 ∷ []) (merged_series (first ∷ second ∷ []))
    ≡ some_has (97 ∷ []) (map (λ (b : Block). b.series) (first ∷ second ∷ []))
merged_series-has_example = merged_series-has (first ∷ second ∷ []) (97 ∷ [])
