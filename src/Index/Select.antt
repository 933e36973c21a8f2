-- ===== src/Index/Select.antt =====
-- internal/tsdb/index/select.go, with the matchers of internal/tsdb/tsdb.go: the ids that a selector
-- picks from an index. `Lookup` is the interface that both indexes implement. The glob of a wildcard
-- is a parameter: `GlobMatch` hands it to the standard library's `path.Match`. A text is its bytes.
pub mod Lists
pub mod Correct
use ozymandias.Base.{
  ℕ, ◌+◌, ◌-◌, Bool, true, false, not, ◌&&◌, ◌||◌, List, [], ◌∷◌, ◌++◌, length, if◌then◌else◌, ltb,
  leb, ◌==◌,
}
use ozymandias.Base.Bytes.{Bytes}
use ozymandias.Index.{intersect, subtract, merge}

pub data MatchType : Type 0 where
  equal not_equal wildcard not_wildcard : MatchType

pub record Matcher : Type 0 where
  pub key : Bytes
  pub value : Bytes
  pub match_type : MatchType

pub record Selector : Type 0 where
  pub metric : Bytes
  pub matchers : List Matcher

pub record Lookup : Type 0 where
  pub postings : Bytes → Bytes → List ℕ
  pub tag_values : Bytes → List Bytes
  pub all_series : List ℕ

-- "__name__"
abbrev pub metric_name : Bytes
metric_name = 95 ∷ 95 ∷ 110 ∷ 97 ∷ 109 ∷ 101 ∷ 95 ∷ 95 ∷ []

unfoldable pub insert_shorter : List ℕ → List (List ℕ) → List (List ℕ)
insert_shorter l [] = l ∷ []
insert_shorter l (m ∷ ms) =
    let rest = insert_shorter l ms in if ltb (length m) (length l) then m ∷ rest else l ∷ m ∷ ms

-- `sort.Slice` by length.
unfoldable pub sort_lists : List (List ℕ) → List (List ℕ)
sort_lists [] = []
sort_lists (l ∷ ls) = insert_shorter l (sort_lists ls)

-- The loop over the other positive lists.
unfoldable pub intersect_all : List ℕ → List (List ℕ) → List ℕ
intersect_all ids [] = ids
intersect_all ids (m ∷ ms) =
    let rest = intersect_all (intersect ids m) ms in
    if length (intersect ids m) == 0 then [] else rest

-- The intersection of all positive lists, or everything where there is none.
unfoldable pub start_from : List ℕ → List (List ℕ) → List ℕ
start_from all [] = all
start_from all (m ∷ ms) = intersect_all m ms

module _ (glob : Bytes → Bytes → Bool) (l : Lookup) where
  unfoldable pub matching_lists : Bytes → Bytes → List Bytes → List (List ℕ)
  matching_lists key pattern_of [] = []
  matching_lists key pattern_of (v ∷ vs) =
      let rest = matching_lists key pattern_of vs in
      if glob pattern_of v then l.postings key v ∷ rest else rest

  unfoldable pub union : Bytes → Bytes → List ℕ
  union key pattern_of = merge (matching_lists key pattern_of (l.tag_values key))

  -- A round of the first loop of `Select`: only the positive matchers have a list.
  unfoldable pub add_positive : MatchType → Bytes → Bytes → List (List ℕ) → List (List ℕ)
  add_positive equal key value ls = l.postings key value ∷ ls
  add_positive wildcard key value ls = union key value ∷ ls
  add_positive not_equal key value ls = ls
  add_positive not_wildcard key value ls = ls

  unfoldable pub positives : List Matcher → List (List ℕ)
  positives [] = []
  positives (m ∷ ms) = add_positive m.match_type m.key m.value (positives ms)

  unfoldable pub all_positives : Selector → List (List ℕ)
  all_positives sel =
      if length sel.metric == 0
      then positives sel.matchers
      else l.postings metric_name sel.metric ∷ positives sel.matchers

  -- A round of the last loop: the list of a negative matcher is taken away.
  unfoldable pub subtract_one : MatchType → Bytes → Bytes → List ℕ → List ℕ
  subtract_one equal key value ids = ids
  subtract_one wildcard key value ids = ids
  subtract_one not_equal key value ids = subtract ids (l.postings key value)
  subtract_one not_wildcard key value ids = subtract ids (union key value)

  unfoldable pub subtract_all : List ℕ → List Matcher → List ℕ
  subtract_all ids [] = ids
  subtract_all ids (m ∷ ms) = subtract_all (subtract_one m.match_type m.key m.value ids) ms

  unfoldable pub select : Selector → List ℕ
  select sel = subtract_all (start_from l.all_series (sort_lists (all_positives sel))) sel.matchers
