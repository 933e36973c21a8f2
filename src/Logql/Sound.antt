-- ===== src/Logql/Sound.antt =====
-- What a query needs is weaker than what it means: a log that matches has the texts it needs.
use ozymandias.Base.{
  ℕ, Option-cases, ◌≡◌, refl, sym, ap, ◌∙◌, Bool, true, false, ◌||◌, Option, none, some, List, [],
  ◌∷◌, ◌++◌, length, map, leb, ltb, ◌*◌, All, InList, InList-front, InList-back, inl, inr, ◌⊎◌,
  Bool-cases, either_side, both_sides,
}
use mathlib.Core.Path.{subst}
use ozymandias.Base.Bytes.{Bytes}
use ozymandias.Logql.{
  Log, Node, Nodes, or, and, negation, text, label, attr, nil, cons, Attr, Op, eq, gt, ge, lt, le,
  range, texts_of,
}
use ozymandias.Logql.Search.{split_stars, split_wild}
use ozymandias.Logql.Match.{matches, any_matches, all_match, compile}
use ozymandias.Logql.Needs.{
  min_literal, max_alts, long_enough, one_alternative, literal_need, is_none, product, and_need,
  unless_trivial, if_few, needs, and_needs, or_needs, attr_need, needs_of,
}
use ozymandias.Logql.Lower.{Within, IsLower}
use ozymandias.Logql.Text.{HasAll, text_matches-HasAll}
use ozymandias.Logql.Attrs.{attr_matches}
use ozymandias.Logql.Found.{attr_matches-HasAll}

module _ (Held : Bytes → Type 0) where
  -- Some alternative has all its literals.
  abbrev pub HasAlternative : List (List Bytes) → Type 0
  HasAlternative alts = (alt : List Bytes) × InList alt alts × All Held alt

  -- A need that constrains nothing is met.
  abbrev pub Meets : List (List Bytes) → Type 0
  Meets alts = (alts ≡ []) ⊎ HasAlternative alts

  All-append : (xs ys : List Bytes) → All Held xs → All Held ys → All Held (xs ++ ys)
  All-append [] ys h k = k
  All-append (x ∷ xs) ys (a, h) k = (a, All-append xs ys h k)

  long_enough-All : (ss : List Bytes) → All Held ss → All Held (long_enough ss)
  unfolding long_enough
  long_enough-All [] h = tt
  long_enough-All (s ∷ ss) (a, h) =
      let rest = long_enough-All ss h in
      elim (Bool-cases (leb min_literal (length s))) [
        | inl long ↦ rw long (a, rest)
        | inr short ↦ rw short rest
      ]

  one_alternative-Meets : (ss : List Bytes) → All Held ss → Meets (one_alternative ss)
  one_alternative-Meets [] h = inl refl
  one_alternative-Meets (s ∷ ss) h = inr (s ∷ ss, inl refl, h)

  literal_need-Meets : (pat : Bytes) → All Held (split_wild pat) → Meets (literal_need pat)
  unfolding literal_need
  literal_need-Meets pat h =
      one_alternative-Meets (long_enough (split_wild pat)) (long_enough-All (split_wild pat) h)

  InList-map :
      (x y : List Bytes) (alts : List (List Bytes))
      → InList y alts
      → InList (x ++ y) (map (λ z. x ++ z) alts)
  InList-map x y [] i = elim i [ ]
  InList-map x y (z ∷ alts) (inl e) = inl (ap (λ t. x ++ t) e)
  InList-map x y (z ∷ alts) (inr i) = inr (InList-map x y alts i)

  InList-product :
      (x y : List Bytes) (acc alts : List (List Bytes))
      → InList x acc
      → InList y alts
      → InList (x ++ y) (product acc alts)
  unfolding product
  InList-product x y [] alts i j = elim i [ ]
  InList-product x y (z ∷ acc) alts (inl e) j =
      InList-front (x ++ y) (map (λ t. z ++ t) alts) (product acc alts)
        (subst (λ t. InList (t ++ y) (map (λ t'. z ++ t') alts)) e (InList-map z y alts j))
  InList-product x y (z ∷ acc) alts (inr i) j =
      InList-back (x ++ y) (map (λ t. z ++ t) alts) (product acc alts)
        (InList-product x y acc alts i j)

  -- A conjunct keeps an alternative that is met.
  and_need-HasAlternative :
      (acc n : List (List Bytes)) → HasAlternative acc → Meets n → HasAlternative (and_need acc n)
  unfolding and_need
  and_need-HasAlternative acc n (x, i, h) (inl free) = rw free (x, i, h)
  and_need-HasAlternative acc n (x, i, h) (inr (y, j, k)) =
      elim (Bool-cases (is_none n || ltb max_alts (length acc * length n))) [
        | inl skip ↦ rw skip (x, i, h)
        | inr wide ↦ rw wide (x ++ y, InList-product x y acc n i j, All-append x y h k)
      ]

  unless_trivial-Meets : (acc : List (List Bytes)) → HasAlternative acc → Meets (unless_trivial acc)
  unless_trivial-Meets [] (x, i, h) = elim i [ ]
  unless_trivial-Meets ([] ∷ []) h = inl refl
  unless_trivial-Meets ((s ∷ x) ∷ []) h = inr h
  unless_trivial-Meets ([] ∷ y ∷ acc) h = inr h
  unless_trivial-Meets ((s ∷ x) ∷ y ∷ acc) h = inr h

  if_few-Meets : (alts : List (List Bytes)) → HasAlternative alts → Meets (if_few alts)
  if_few-Meets alts h = elim (Bool-cases (ltb max_alts (length alts))) [
    | inl many ↦ rw many (inl refl)
    | inr few ↦ rw few (inr h)
  ]

  -- A disjunct that holds adds an alternative that is met; otherwise the rest holds.
  disjunct-HasAlternative :
      (alts n : List (List Bytes)) (here rest : Bool)
      → is_none n ≡ false
      → (here ≡ true → Meets n)
      → HasAlternative alts ⊎ ((here || rest) ≡ true)
      → HasAlternative (alts ++ n) ⊎ (rest ≡ true)
  disjunct-HasAlternative alts n here rest some_need meets (inl (x, i, h)) =
      inl (x, InList-front x alts n i, h)
  disjunct-HasAlternative alts n here rest some_need meets (inr h) =
      elim (either_side here rest h) [
        | inl holds ↦ elim (meets holds) [
          | inl free ↦ let e : true ≡ false = ap is_none (sym free) ∙ some_need in absurd (cc)
          | inr (y, j, k) ↦ inl (y, InList-back y alts n j, k)
        ]
        | inr others ↦ inr others
      ]

-- A literal stands, lower-cased, in some text of the log.
abbrev pub Held : (Bytes → Bytes) → Log → Bytes → Type 0
Held to_lower l lit = (s : Bytes) × InList s (texts_of l) × Within (to_lower s) lit

-- The segments of a pattern are of whole characters, as they are in a pattern of valid UTF-8.
abbrev pub HasWholeSegments : (Bytes → Bool) → Attr → Type 0
HasWholeSegments whole a = All (λ s. whole s ≡ true) (split_stars a.value)

-- So are those of every attribute term of a query.
unfoldable mutual
  pub IsWhole : (Bytes → Bool) → Node → Type 0
  IsWhole whole (or args) = AreWhole whole args
  IsWhole whole (and args) = AreWhole whole args
  IsWhole whole (negation x) = Unit {0}
  IsWhole whole (text value) = Unit {0}
  IsWhole whole (label key value) = Unit {0}
  IsWhole whole (attr a) = HasWholeSegments whole a

  pub AreWhole : (Bytes → Bool) → Nodes → Type 0
  AreWhole whole nil = Unit {0}
  AreWhole whole (cons a args) = IsWhole whole a × AreWhole whole args

abbrev pub IsWholeQuery : (Bytes → Bool) → Option Node → Type 0
IsWholeQuery whole none = Unit {0}
IsWholeQuery whole (some q) = IsWhole whole q

module _ (to_lower : Bytes → Bytes) (whole : Bytes → Bool) (laws : IsLower to_lower whole)
    (parse_float : Bytes → Option ℕ) where
  HasAll-All :
      (l : Log) (lits : List Bytes) → HasAll to_lower (texts_of l) lits → All (Held to_lower l) lits
  HasAll-All l [] (s, i, h) = tt
  HasAll-All l (lit ∷ lits) (s, i, (w, h)) = ((s, i, w), HasAll-All l lits (s, i, h))

  attr_need-Meets :
      (op : Op) (a : Attr) (l : Log)
      → a.op ≡ op
      → HasWholeSegments whole a
      → attr_matches parse_float a l ≡ true
      → Meets (Held to_lower l) (attr_need to_lower parse_float op a.value)
  unfolding attr_need
  attr_need-Meets eq a l same w h = elim (Option-cases (parse_float a.value)) [
    | inl word ↦
        rw (attr_need, word)
          (literal_need-Meets (Held to_lower l) (to_lower a.value) (
            HasAll-All l (split_wild (to_lower a.value))
              (attr_matches-HasAll to_lower whole laws parse_float a l same word w h)))
    | inr (f, number) ↦ rw (attr_need, number) (inl refl)
  ]
  attr_need-Meets gt a l same w h = inl refl
  attr_need-Meets ge a l same w h = inl refl
  attr_need-Meets lt a l same w h = inl refl
  attr_need-Meets le a l same w h = inl refl
  attr_need-Meets range a l same w h = inl refl

  mutual
    unfolding needs matches IsWhole

    needs-Held :
        (q : Node) (l : Log)
        → IsWhole whole q
        → matches to_lower parse_float q l ≡ true
        → Meets (Held to_lower l) (needs to_lower parse_float q)
    needs-Held (or args) l w h = or_needs-Held [] args l w (inr h)
    needs-Held (and args) l w h =
        unless_trivial-Meets (Held to_lower l) (and_needs to_lower parse_float ([] ∷ []) args)
          (and_needs-Held ([] ∷ []) args l w ([], inl refl, tt) h)
    needs-Held (negation x) l w h = inl refl
    needs-Held (text value) l w h = literal_need-Meets (Held to_lower l) (to_lower value) (
        HasAll-All l (split_wild (to_lower value))
          (text_matches-HasAll to_lower laws.ascii value l h))
    needs-Held (label key value) l w h = inl refl
    needs-Held (attr a) l w h = attr_need-Meets a.op a l refl w h

    and_needs-Held :
        (acc : List (List Bytes)) (args : Nodes) (l : Log)
        → AreWhole whole args
        → HasAlternative (Held to_lower l) acc
        → all_match to_lower parse_float args l ≡ true
        → HasAlternative (Held to_lower l) (and_needs to_lower parse_float acc args)
    and_needs-Held acc nil l w good h = good
    and_needs-Held acc (cons a args) l (w, ws) good h =
        let (here, there) = both_sides (matches to_lower parse_float a l) _ h in
        let n = needs to_lower parse_float a in
        and_needs-Held (and_need acc n) args l ws
          (and_need-HasAlternative (Held to_lower l) acc n good (needs-Held a l w here)) there

    or_needs-Held :
        (alts : List (List Bytes)) (args : Nodes) (l : Log)
        → AreWhole whole args
        → HasAlternative (Held to_lower l) alts ⊎ (any_matches to_lower parse_float args l ≡ true)
        → Meets (Held to_lower l) (or_needs to_lower parse_float alts args)
    or_needs-Held alts nil l w (inl good) = if_few-Meets (Held to_lower l) alts good
    or_needs-Held alts nil l w (inr h) = absurd (cc)
    or_needs-Held alts (cons a args) l (w, ws) h =
        let n = needs to_lower parse_float a in
        elim (Bool-cases (is_none n)) [
          | inl free ↦ rw free (inl refl)
          | inr some_need ↦ rw some_need (
              or_needs-Held (alts ++ n) args l ws (
                disjunct-HasAlternative (Held to_lower l) alts n (matches to_lower parse_float a l)
                  (any_matches to_lower parse_float args l) some_need
                  (λ here. needs-Held a l w here) h))
        ]

  -- A log that satisfies a query meets what Needs says of it: it constrains nothing, or all literals
  -- of some alternative stand, lower-cased, in texts of the log. The patterns of attribute terms that
  -- are not under a NOT are of whole characters between their wildcards, and strings.ToLower goes
  -- character by character.
  pub compile-needs :
      (q : Option Node) (l : Log)
      → IsWholeQuery whole q
      → compile to_lower parse_float q l ≡ true
      → Meets (Held to_lower l) (needs_of to_lower parse_float q)
  compile-needs none l w h = inl refl
  compile-needs (some q) l w h = needs-Held q l w h
