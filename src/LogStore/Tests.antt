-- ===== src/LogStore/Tests.antt =====
-- A block of two entries, whose second has no text, and a checksum that is easy to compute.
use ozymandias.Base.{
  ℕ, ◌+◌, ◌*◌, ◌%◌, ◌^◌, ◌<◌, ◌≤◌, ◌≡◌, refl, true, Option, some, none, List, [], ◌∷◌, ◌++◌, ap,
  ◌∙◌, ◌==◌, if◌then◌else◌, length, map, arith, inl,
}
use ozymandias.Base.Bytes.{Bytes}
use ozymandias.LogStore.{
  min_bloom_bytes, max_bloom_bytes, bloom_trailer_bytes, build_bloom, parse_bloom, may_match,
  see_texts, see_entries, blob_of,
}
use ozymandias.Logql
use ozymandias.Logql.{
  Log, Node, or, and, nil, cons, label, attr, Attr, eq, string, array, element, last, member,
  no_more, texts_of,
}
use ozymandias.Logql.Search.{star, lower_byte, is_ascii, split_stars}
use ozymandias.Logql.Match.{matches}
use ozymandias.Logql.Needs.{needs, literal_need, and_need, attr_need, needs_of}
use ozymandias.Logql.Lower.{HasNoStar, IsLower}
use ozymandias.Logql.Sound.{Held, Meets, IsWhole, IsWholeQuery, compile-needs}
use ozymandias.LogStore.Skip.{texts_of_block, compile-may_match}
use ozymandias.LogStore.Filter.{build_bloom_size}

sum_of : Bytes → ℕ
sum_of [] = 7
sum_of (b ∷ bs) = (b + 31 * sum_of bs) % 2 ^ 32

sum_of-lt : (bs : Bytes) → sum_of bs < 2 ^ 32
unfolding sum_of
sum_of-lt [] = omega arith
sum_of-lt (b ∷ bs) = omega arith

abbrev as_it_is : Bytes → Bytes
as_it_is s = s

-- "GET /a"
abbrev text : Bytes
text = 71 ∷ 69 ∷ 84 ∷ 32 ∷ 47 ∷ 97 ∷ []

abbrev block : List (Option (List Bytes))
block = some (text ∷ []) ∷ some [] ∷ []

abbrev blob : Bytes
blob = blob_of as_it_is sum_of (
    (32 * 2 ^ 16 + 47 * 2 ^ 8 + 97)
    ∷ (84 * 2 ^ 16 + 32 * 2 ^ 8 + 47)
    ∷ (69 * 2 ^ 16 + 84 * 2 ^ 8 + 32)
    ∷ (71 * 2 ^ 16 + 69 * 2 ^ 8 + 84)
    ∷ [])

built : build_bloom as_it_is sum_of block ≡ some blob
unfolding build_bloom see_entries
built = refl

-- A log with an attribute that is a list, and a query that finds it by its text and by the attribute.
abbrev found_log : Log
found_log = record {
  message = text;
  status = [];
  service = 97 ∷ [];
  source = [];
  host = [];
  tags = (101 ∷ 110 ∷ 118 ∷ 58 ∷ 112 ∷ []) ∷ [];
  trace_id = [];
  attrs = member (117 ∷ []) (array (element (string (65 ∷ 98 ∷ 99 ∷ 100 ∷ [])) last)) no_more;
}

-- @u:Abc*
abbrev term : Attr
term = record { path = 117 ∷ []; op = eq; value = 65 ∷ 98 ∷ 99 ∷ star ∷ []; num = 0; hi = 0 }

abbrev query : Node
query = and (
    cons (Logql.text (69 ∷ 84 ∷ 32 ∷ 47 ∷ []))
      (cons (label (101 ∷ 110 ∷ 118 ∷ []) (112 ∷ [])) (cons (or (cons (attr term) nil)) nil)))

-- Of floats, only "0" is read.
zero_only : Bytes → Option ℕ
zero_only [] = none
zero_only (b ∷ []) = if b == 48 then some 0 else none
zero_only (b ∷ c ∷ s) = none

-- ASCII as strings.ToLower has it, and the other bytes as they are.
abbrev lower_ascii : Bytes → Bytes
lower_ascii = map lower_byte

lower_ascii-append : (s t : Bytes) → lower_ascii (s ++ t) ≡ lower_ascii s ++ lower_ascii t
lower_ascii-append [] t = refl
lower_ascii-append (b ∷ s) t = ap (λ r. lower_byte b ∷ r) (lower_ascii-append s t)

lower_ascii-HasNoStar : (s : Bytes) → HasNoStar s → HasNoStar (lower_ascii s)
unfolding lower_byte
lower_ascii-HasNoStar [] h = tt
lower_ascii-HasNoStar (b ∷ s) (other, h) = (ground (arith, other), lower_ascii-HasNoStar s h)

lower_ascii-IsLower : IsLower lower_ascii is_ascii
unfolding is_ascii
lower_ascii-IsLower = record {
  ascii = λ s plain. refl;
  star_whole = refl;
  around = λ front s back w some_s.
      lower_ascii-append front (s ++ back)
      ∙ ap (λ r. lower_ascii front ++ r) (lower_ascii-append s back);
  starless = lower_ascii-HasNoStar;
}

found_needs :
    needs lower_ascii zero_only query ≡ ((101 ∷ 116 ∷ 32 ∷ 47 ∷ []) ∷ (97 ∷ 98 ∷ 99 ∷ []) ∷ []) ∷ []
unfolding needs literal_need and_need lower_byte zero_only attr_need
found_needs = refl

found_matches : matches lower_ascii zero_only query found_log ≡ true
unfolding matches lower_byte zero_only
found_matches = refl

query-IsWhole : IsWholeQuery is_ascii (some query)
unfolding IsWhole is_ascii split_stars
query-IsWhole = (tt, (tt, (((refl, (refl, tt)), tt), tt)))

compile-needs_example :
    Meets (Held lower_ascii found_log) (needs_of lower_ascii zero_only (some query))
compile-needs_example =
    compile-needs lower_ascii is_ascii lower_ascii-IsLower zero_only (some query) found_log
      query-IsWhole found_matches

abbrev log_block : List (Option Log)
log_block = some found_log ∷ []

abbrev log_blob : Bytes
log_blob = blob_of lower_ascii sum_of (see_texts lower_ascii [] (texts_of found_log))

log_built : build_bloom lower_ascii sum_of (texts_of_block log_block) ≡ some log_blob
unfolding build_bloom see_entries
log_built = refl

compile-may_match_example :
    (bits : Bytes) × (parse_bloom sum_of log_blob ≡ some bits)
    × (may_match bits (needs_of lower_ascii zero_only (some query)) ≡ true)
compile-may_match_example =
    compile-may_match lower_ascii is_ascii lower_ascii-IsLower zero_only sum_of sum_of-lt log_block
      log_blob (some query) found_log log_built (inl refl) query-IsWhole found_matches

-- A short body is not read.
short_is_refused : parse_bloom sum_of (4 ∷ 0 ∷ 0 ∷ 0 ∷ []) ≡ none
unfolding parse_bloom
short_is_refused = refl

build_bloom_size_example :
    (1 + min_bloom_bytes + bloom_trailer_bytes ≤ length blob)
    × (length blob ≤ 1 + max_bloom_bytes + bloom_trailer_bytes)
build_bloom_size_example = build_bloom_size as_it_is sum_of sum_of-lt block blob built
