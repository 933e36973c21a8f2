-- ===== src/Logql/Match.antt =====
-- internal/query/logql/match.go: whether a log satisfies a query. strings.ToLower and
-- strconv.ParseFloat, which gives a bit pattern, are parameters.
use ozymandias.Base.{ℕ, Bool, true, false, not, ◌&&◌, ◌||◌, Option, none, some}
use ozymandias.Base.Bytes.{Bytes}
use ozymandias.Logql.{Log, Node, Nodes, or, and, negation, text, label, attr, nil, cons}
use ozymandias.Logql.Search.{text_matches}
use ozymandias.Logql.Attrs.{label_matches, attr_matches}

module _ (to_lower : Bytes → Bytes) (parse_float : Bytes → Option ℕ) where
  -- `Compile`, applied to a log.
  unfoldable mutual
    unfolding text_matches label_matches attr_matches

    pub matches : Node → Log → Bool
    matches (or args) l = any_matches args l
    matches (and args) l = all_match args l
    matches (negation x) l = not (matches x l)
    matches (text value) l = text_matches to_lower value l
    matches (label key value) l = label_matches key value l
    matches (attr a) l = attr_matches parse_float a l

    pub any_matches : Nodes → Log → Bool
    any_matches nil l = false
    any_matches (cons a args) l = matches a l || any_matches args l

    pub all_match : Nodes → Log → Bool
    all_match nil l = true
    all_match (cons a args) l = matches a l && all_match args l

  -- The empty query matches every log.
  abbrev pub compile : Option Node → Log → Bool
  compile none l = true
  compile (some q) l = matches q l
