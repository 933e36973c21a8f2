-- ===== src/Logql/Attrs.antt =====
-- internal/query/logql/match.go: the filters of label and attribute terms. strconv.ParseFloat is a
-- parameter; the comparisons of floats are on bit patterns.
use ozymandias.Base.{
  ℕ, ◌+◌, ◌-◌, Bool, false, not, ◌&&◌, ◌||◌, Option, none, some, List, [], ◌∷◌, ◌++◌, length, drop,
  if◌then◌else◌, leb, ◌==◌,
}
use ozymandias.Base.Bytes.{Bytes, bytes_eq}
use ozymandias.Base.Float.{flt, fle, feq}
use ozymandias.Logql.{
  Op, eq, gt, ge, lt, le, range, Attr, Value, Members, Elements, string, object, array, number,
  boolean, null, no_more, member, last, element, Log, bool_text, null_text,
}
use ozymandias.Logql.Search.{star, same_byte, split_stars, starts_with, index_from}

-- `strings.HasSuffix`
unfoldable pub has_suffix : Bytes → Bytes → Bool
unfolding bytes_eq
has_suffix s suf = leb (length suf) (length s) && bytes_eq (drop (length s - length suf) s) suf

-- The middle segments in turn, and then the last one as a suffix.
unfoldable pub glob_rest : Bytes → Bytes → List Bytes → Bool
unfolding has_suffix index_from
glob_rest s seg [] = has_suffix s seg
glob_rest s seg (next ∷ segs) = elim (index_from same_byte 0 s seg) [
  | none ↦ false
  | some i ↦ glob_rest (drop (i + length seg) s) next segs
]

-- The segments of a pattern; one alone is a pattern without `*`.
unfoldable pub glob_segs : List Bytes → Bytes → Bool
unfolding bytes_eq starts_with glob_rest
glob_segs [] s = false
glob_segs (seg ∷ []) s = bytes_eq seg s
glob_segs (seg ∷ next ∷ segs) s =
    starts_with same_byte s seg && glob_rest (drop (length seg) s) next segs

-- `globMatch`
unfoldable pub glob_match : Bytes → Bytes → Bool
unfolding split_stars glob_segs
glob_match pat s = glob_segs (split_stars pat) s

-- `MatchLabel`
unfoldable pub match_label : Bytes → Bytes → Bool
unfolding bytes_eq glob_match
match_label pattern_ value =
    if bytes_eq pattern_ (star ∷ []) then not (bytes_eq value []) else glob_match pattern_ value

-- `wire.SplitTag`
unfoldable pub split_tag : Bytes → Bytes × Bytes
split_tag [] = ([], [])
split_tag (c ∷ s) = let rest = split_tag s in if c == 58 then ([], s) else (c ∷ rest.0, rest.1)

-- The value of the first `env` tag.
unfoldable pub env_of : List Bytes → Bytes
unfolding bytes_eq split_tag
env_of [] = []
env_of (tag ∷ tags) =
    let rest = env_of tags in
    if bytes_eq (split_tag tag).0 (101 ∷ 110 ∷ 118 ∷ []) then (split_tag tag).1 else rest

-- `LabelValue`, by the reserved keys.
unfoldable pub label_value : Log → Bytes → Bytes
unfolding bytes_eq env_of
label_value l key =
    if bytes_eq key (115 ∷ 101 ∷ 114 ∷ 118 ∷ 105 ∷ 99 ∷ 101 ∷ [])
    then l.service
    else if bytes_eq key (115 ∷ 111 ∷ 117 ∷ 114 ∷ 99 ∷ 101 ∷ [])
    then l.source
    else if bytes_eq key (104 ∷ 111 ∷ 115 ∷ 116 ∷ [])
    then l.host
    else if bytes_eq key (115 ∷ 116 ∷ 97 ∷ 116 ∷ 117 ∷ 115 ∷ [])
    then l.status
    else if bytes_eq key (116 ∷ 114 ∷ 97 ∷ 99 ∷ 101 ∷ 95 ∷ 105 ∷ 100 ∷ [])
    then l.trace_id
    else if bytes_eq key (101 ∷ 110 ∷ 118 ∷ [])
    then env_of l.tags
    else []

-- `compileLabel`
unfoldable pub label_matches : Bytes → Bytes → Log → Bool
unfolding match_label label_value
label_matches key value l = match_label value (label_value l key)

-- `appendFlat`, behind what is there.
unfoldable mutual
  pub flat : Value → List Value
  flat (string s) = string s ∷ []
  flat (object ms) = object ms ∷ []
  flat (array xs) = flat_elements xs
  flat (number s) = number s ∷ []
  flat (boolean b) = boolean b ∷ []
  flat null = null ∷ []

  pub flat_elements : Elements → List Value
  flat_elements last = []
  flat_elements (element v xs) = flat v ++ flat_elements xs

-- A member of a map, with the walk of its value.
pub record Entry : Type 0 where
  pub key : Bytes
  pub value : Value
  pub walk : Bytes → List Value

-- What there is at a key.
unfoldable pub at_key : Bytes → (Entry → List Value) → List Entry → List Value
unfolding bytes_eq
at_key k found [] = []
at_key k found (e ∷ es) = let rest = at_key k found es in if bytes_eq e.key k then found e else rest

-- The loop over the dots of a path; `front` is what stands before it.
unfoldable pub walk_dots : List Entry → Bytes → Bytes → List Value
unfolding at_key
walk_dots es front [] = []
walk_dots es front (c ∷ path) =
    let rest = walk_dots es (front ++ c ∷ []) path in
    if c == 46 then at_key front (λ e. e.walk path) es ++ rest else rest

-- A walk of a map: the whole path as a key, and then its fronts.
unfoldable pub walk_object : List Entry → Bytes → List Value
unfolding at_key flat walk_dots
walk_object es path = at_key path (λ e. flat e.value) es ++ walk_dots es [] path

-- `walk`
unfoldable mutual
  unfolding walk_object

  pub walk : Value → Bytes → List Value
  walk (string s) path = []
  walk (object ms) path = walk_object (entries ms) path
  walk (array xs) path = walk_elements xs path
  walk (number s) path = []
  walk (boolean b) path = []
  walk null path = []

  pub entries : Members → List Entry
  entries no_more = []
  entries (member k v ms) = record { key = k; value = v; walk = λ path. walk v path } ∷ entries ms

  pub walk_elements : Elements → Bytes → List Value
  walk_elements last path = []
  walk_elements (element v xs) path = walk v path ++ walk_elements xs path

-- `lookup`
unfoldable pub lookup : Members → Bytes → List Value
unfolding walk
lookup m path = walk (object m) path

-- The `switch` of `eqMatches`.
unfoldable pub text_eq : Bytes → Value → Bool
unfolding glob_match
text_eq pat (string s) = glob_match pat s
text_eq pat (object ms) = false
text_eq pat (array xs) = false
text_eq pat (number s) = glob_match pat s
text_eq pat (boolean b) = glob_match pat (bool_text b)
text_eq pat null = glob_match pat null_text

module _ (parse_float : Bytes → Option ℕ) where
  -- `numberOf`
  unfoldable pub number_of : Value → Option ℕ
  number_of (number s) = parse_float s
  number_of (string s) = none
  number_of (object ms) = none
  number_of (array xs) = none
  number_of (boolean b) = none
  number_of null = none

  -- `eqMatches`
  unfoldable pub eq_matches : Bytes → Value → Bool
  unfolding number_of text_eq
  eq_matches pat v = elim (parse_float pat) [
    | none ↦ text_eq pat v
    | some pf ↦ elim (number_of v) [ none ↦ text_eq pat v | some f ↦ feq f pf ]
  ]

  -- The comparisons of `attrMatches` on a number.
  abbrev pub compared : Op → Attr → ℕ → Bool
  compared eq a f = false
  compared gt a f = flt a.num f
  compared ge a f = fle a.num f
  compared lt a f = flt f a.num
  compared le a f = fle f a.num
  compared range a f = fle a.num f && fle f a.hi

  abbrev pub compare_number : Op → Attr → Option ℕ → Bool
  compare_number op a none = false
  compare_number op a (some f) = compared op a f

  -- `attrMatches`
  unfoldable pub value_matches : Op → Attr → Value → Bool
  unfolding eq_matches number_of flt fle
  value_matches eq a v = eq_matches a.value v
  value_matches gt a v = compare_number gt a (number_of v)
  value_matches ge a v = compare_number ge a (number_of v)
  value_matches lt a v = compare_number lt a (number_of v)
  value_matches le a v = compare_number le a (number_of v)
  value_matches range a v = compare_number range a (number_of v)

  unfoldable pub any_value : Attr → List Value → Bool
  unfolding value_matches
  any_value a [] = false
  any_value a (v ∷ vs) = value_matches a.op a v || any_value a vs

  -- `compileAttr`
  unfoldable pub attr_matches : Attr → Log → Bool
  unfolding any_value lookup
  attr_matches a l = any_value a (lookup l.attrs a.path)
