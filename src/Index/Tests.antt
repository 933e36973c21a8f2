-- ===== src/Index/Tests.antt =====
-- The lists of two tags.
use ozymandias.Base.{Bool, true, false, ℕ, ◌≡◌, refl, List, [], ◌∷◌, ◌&&◌, ◌||◌, arith}
use ozymandias.Index.{
  search, ends_below, append_sorted, remove_id, gallop_from, gallop, intersect_from, intersect,
  skip_below, subtract,
}
use ozymandias.Index.Merge.{some_mem, merge-mem}
use ozymandias.Index.Member.{mem, IsIncreasing}
use ozymandias.Index.Sets.{intersect-mem}
use ozymandias.Base.Bytes.{Bytes, bytes_eq}
use ozymandias.Index.{smallest_id, move_ids, merge_from, merge}
use ozymandias.Index.Select.{
  MatchType, Selector, Lookup, insert_shorter, sort_lists, intersect_all, start_from,
  matching_lists, union, add_positive, positives, all_positives, subtract_one, subtract_all, select,
}
use ozymandias.Index.Select.Correct.{IsIndex, picks, select-mem}

abbrev prod : List ℕ
prod = 1 ∷ 2 ∷ 4 ∷ 8 ∷ 9 ∷ 12 ∷ 20 ∷ []

abbrev web : List ℕ
web = 2 ∷ 9 ∷ 20 ∷ 30 ∷ []

in_both : intersect prod web ≡ 2 ∷ 9 ∷ 20 ∷ []
unfolding search gallop_from gallop intersect_from intersect
in_both = refl

without : subtract prod web ≡ 1 ∷ 4 ∷ 8 ∷ 12 ∷ []
unfolding skip_below subtract
without = refl

added : append_sorted web 10 ≡ 2 ∷ 9 ∷ 10 ∷ 20 ∷ 30 ∷ []
unfolding search ends_below append_sorted
added = refl

removed : remove_id web 9 ≡ 2 ∷ 20 ∷ 30 ∷ []
unfolding search remove_id
removed = refl

web_rises : IsIncreasing web
web_rises = (
  (omega arith, (omega arith, (omega arith, tt))),
  ((omega arith, (omega arith, tt)), ((omega arith, tt), (tt, tt))),
)

abbrev few : List ℕ
few = 2 ∷ 3 ∷ 9 ∷ []

few_rises : IsIncreasing few
few_rises = ((omega arith, (omega arith, tt)), ((omega arith, tt), (tt, tt)))

intersect-mem_example :
    IsIncreasing (intersect few web)
    × ((z : ℕ) → mem z (intersect few web) ≡ (mem z few && mem z web))
intersect-mem_example = intersect-mem few web few_rises web_rises

united : merge (few ∷ web ∷ []) ≡ 2 ∷ 3 ∷ 9 ∷ 20 ∷ 30 ∷ []
unfolding smallest_id move_ids merge_from merge
united = refl

-- Two series of the value "p" and two of "w" under every key, of three that are known.
abbrev pick_list : Bool → Bool → List ℕ
pick_list true w = 1 ∷ 2 ∷ []
pick_list false true = 2 ∷ 3 ∷ []
pick_list false false = []

abbrev small : Lookup
small = record {
  postings = λ key value. pick_list (bytes_eq value (112 ∷ [])) (bytes_eq value (119 ∷ []));
  tag_values = λ key. (112 ∷ []) ∷ (119 ∷ []) ∷ [];
  all_series = 1 ∷ 2 ∷ 3 ∷ [];
}

-- The pattern "*" matches everything, and any other only itself.
abbrev star : Bytes → Bytes → Bool
star p v = bytes_eq p (42 ∷ []) || bytes_eq p v

pick_list_rises : (p w : Bool) → IsIncreasing (pick_list p w)
pick_list_rises true w = ((omega arith, tt), (tt, tt))
pick_list_rises false true = ((omega arith, tt), (tt, tt))
pick_list_rises false false = tt

pick_list_known :
    (p w : Bool) (z : ℕ) → mem z (pick_list p w) ≡ true → mem z (1 ∷ 2 ∷ 3 ∷ []) ≡ true
pick_list_known true w z e = ground (arith, e)
pick_list_known false true z e = ground (arith, e)
pick_list_known false false z e = absurd (cc)

small-IsIndex : IsIndex star small
small-IsIndex = record {
  rising = λ key value. pick_list_rises _ _;
  all_rising = ((omega arith, (omega arith, tt)), ((omega arith, tt), (tt, tt)));
  known = λ key value. pick_list_known _ _;
}

-- Anything of the metric "p", but not with the value "w".
abbrev not_web : Selector
not_web = record {
  metric = 112 ∷ [];
  matchers =
      record { key = 97 ∷ []; value = 42 ∷ []; match_type = MatchType.wildcard }
      ∷ record { key = 97 ∷ []; value = 119 ∷ []; match_type = MatchType.not_equal }
      ∷ [];
}

selected : select star small not_web ≡ 1 ∷ []
unfolding bytes_eq search gallop_from gallop intersect_from intersect skip_below subtract
    smallest_id move_ids merge_from merge insert_shorter sort_lists intersect_all start_from
    matching_lists union add_positive positives all_positives subtract_one subtract_all select
selected = refl

select-mem_example :
    IsIncreasing (select star small not_web)
    × ((z : ℕ) → mem z (select star small not_web) ≡ picks star small not_web z)
select-mem_example = select-mem star small small-IsIndex not_web

merge-mem_example :
    IsIncreasing (merge (few ∷ web ∷ []))
    × ((z : ℕ) → mem z (merge (few ∷ web ∷ [])) ≡ some_mem z (few ∷ web ∷ []))
merge-mem_example = merge-mem (few ∷ web ∷ []) (few_rises, (web_rises, tt))
