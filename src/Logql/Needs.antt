-- ===== src/Logql/Needs.antt =====
-- internal/query/logql/needs.go: what text a block must hold for a query to match a log of it.
-- strings.ToLower and strconv.ParseFloat are parameters.
use ozymandias.Base.{
  ℕ, ◌*◌, Bool, true, false, ◌||◌, Option, none, some, List, [], ◌∷◌, ◌++◌, length, map,
  if◌then◌else◌, ltb, leb,
}
use ozymandias.Base.Bytes.{Bytes}
use ozymandias.Logql.{
  Node, Nodes, or, and, negation, text, label, attr, nil, cons, Op, eq, gt, ge, lt, le, range,
}
use ozymandias.Logql.Search.{split_wild}

abbrev pub min_literal : ℕ
min_literal = 3

abbrev pub max_alts : ℕ
max_alts = 16

-- The literals that are long enough to look up.
unfoldable pub long_enough : List Bytes → List Bytes
long_enough [] = []
long_enough (s ∷ ss) =
    let rest = long_enough ss in if leb min_literal (length s) then s ∷ rest else rest

abbrev pub one_alternative : List Bytes → List (List Bytes)
one_alternative [] = []
one_alternative (s ∷ ss) = (s ∷ ss) ∷ []

-- `literalNeed`; a `Need` is its alternatives.
unfoldable pub literal_need : Bytes → List (List Bytes)
unfolding split_wild long_enough
literal_need lower_pattern = one_alternative (long_enough (split_wild lower_pattern))

-- `None`
abbrev pub is_none : List (List Bytes) → Bool
is_none [] = true
is_none (x ∷ xs) = false

unfoldable pub product : List (List Bytes) → List (List Bytes) → List (List Bytes)
product [] alts = []
product (x ∷ acc) alts = map (λ y. x ++ y) alts ++ product acc alts

-- One round of the loop of `andNeeds`.
unfoldable pub and_need : List (List Bytes) → List (List Bytes) → List (List Bytes)
unfolding product
and_need acc n = if is_none n || ltb max_alts (length acc * length n) then acc else product acc n

-- The end of `andNeeds`.
abbrev pub unless_trivial : List (List Bytes) → List (List Bytes)
unless_trivial ([] ∷ []) = []
unless_trivial acc = acc

-- The end of `orNeeds`.
abbrev pub if_few : List (List Bytes) → List (List Bytes)
if_few alts = if ltb max_alts (length alts) then [] else alts

-- `OrNeeds`
unfoldable pub or_all : List (List Bytes) → List (List (List Bytes)) → List (List Bytes)
or_all alts [] = if_few alts
or_all alts (n ∷ ns) = let rest = or_all (alts ++ n) ns in if is_none n then [] else rest

module _ (to_lower : Bytes → Bytes) (parse_float : Bytes → Option ℕ) where
  -- The case of an attribute term.
  unfoldable pub attr_need : Op → Bytes → List (List Bytes)
  unfolding literal_need
  attr_need eq value = elim (parse_float value) [
    | some number ↦ []
    | none ↦ literal_need (to_lower value)
  ]
  attr_need gt value = []
  attr_need ge value = []
  attr_need lt value = []
  attr_need le value = []
  attr_need range value = []

  -- `Needs`, with the loops of `andNeeds` and `orNeeds`.
  unfoldable mutual
    unfolding literal_need and_need attr_need

    pub needs : Node → List (List Bytes)
    needs (or args) = or_needs [] args
    needs (and args) = unless_trivial (and_needs ([] ∷ []) args)
    needs (negation x) = []
    needs (text value) = literal_need (to_lower value)
    needs (label key value) = []
    needs (attr a) = attr_need a.op a.value

    pub and_needs : List (List Bytes) → Nodes → List (List Bytes)
    and_needs acc nil = acc
    and_needs acc (cons a args) = and_needs (and_need acc (needs a)) args

    pub or_needs : List (List Bytes) → Nodes → List (List Bytes)
    or_needs alts nil = if_few alts
    or_needs alts (cons a args) =
        let rest = or_needs (alts ++ needs a) args in if is_none (needs a) then [] else rest

  -- `Needs` of a query that may be empty.
  abbrev pub needs_of : Option Node → List (List Bytes)
  needs_of none = []
  needs_of (some q) = needs q
