-- ===== src/Logql/Found.antt =====
-- What an attribute term finds: all segments of its pattern, in one text of the log.
use ozymandias.Base.{
  ℕ, zero, suc, ◌+◌, ◌-◌, ◌≡◌, refl, sym, ap, ◌∙◌, Bool, true, false, Option, none, some, List, [],
  ◌∷◌, ◌++◌, length, take, drop, map, leb, ◌==◌, All, InList, InList-front, InList-back, inl, inr,
  Bool-cases, Option-cases, either_side, both_sides,
}
use mathlib.Core.Path.{subst}
use mathlib.Core.List.{append_assoc, append-nil}
use ozymandias.Base.Bytes.{Bytes, bytes_eq, bytes_eq_iff}
use ozymandias.Logql.{
  eq, Attr, Value, Members, Elements, string, object, array, number, boolean, null, no_more, member,
  last, element, Log, bool_text, null_text, texts_of_value, texts_of_members, texts_of_elements,
  texts_of,
}
use ozymandias.Logql.Search.{same_byte, split_stars, split_wild, starts_with, index_from, non_empty}
use ozymandias.Logql.Lower.{Within, IsLower, split_stars-to_lower, All-to_lower, non_empty-All}
use ozymandias.Logql.Text.{HasAll, starts_with-Within, index_from-Within, map-same_byte}
use ozymandias.Logql.Attrs.{
  has_suffix, glob_rest, glob_segs, glob_match, flat, flat_elements, Entry, at_key, walk_dots,
  walk_object, walk, entries, walk_elements, lookup, text_eq, eq_matches, value_matches, any_value,
  attr_matches,
}

take-drop : (n : ℕ) (s : Bytes) → take n s ++ drop n s ≡ s
take-drop zero s = refl
take-drop (suc n) [] = refl
take-drop (suc n) (b ∷ s) = ap (λ t. b ∷ t) (take-drop n s)

drop-Within : (n : ℕ) (s lit : Bytes) → Within (drop n s) lit → Within s lit
drop-Within n s lit (front, back, same) = (
  take n s ++ front,
  back,
  sym (take-drop n s)
      ∙ (ap (λ t. take n s ++ t) same ∙ sym (append_assoc (take n s) front (lit ++ back))),
)

All-drop-Within :
    (n : ℕ) (s : Bytes) (segs : List Bytes) → All (Within (drop n s)) segs → All (Within s) segs
All-drop-Within n s [] h = tt
All-drop-Within n s (seg ∷ segs) (a, h) = (drop-Within n s seg a, All-drop-Within n s segs h)

bytes_eq-Within : (lit s : Bytes) → bytes_eq lit s ≡ true → Within s lit
bytes_eq-Within lit s h = ([], [], sym ((bytes_eq_iff lit s).0 h) ∙ sym (append-nil lit))

has_suffix-Within : (s suf : Bytes) → has_suffix s suf ≡ true → Within s suf
unfolding has_suffix
has_suffix-Within s suf h =
    let n = length s - length suf in
    let same = (bytes_eq_iff (drop n s) suf).0 (both_sides (leb (length suf) (length s)) _ h).1 in
    (take n s, [], sym (take-drop n s) ∙ ap (λ t. take n s ++ t) (same ∙ sym (append-nil suf)))

glob_rest-Within :
    (s seg : Bytes) (segs : List Bytes) → glob_rest s seg segs ≡ true → All (Within s) (seg ∷ segs)
unfolding glob_rest
glob_rest-Within s seg [] h = (has_suffix-Within s seg h, tt)
glob_rest-Within s seg (next ∷ segs) h =
    let after : Option ℕ → Bool =
      λ o. elim o [ none ↦ false | some i ↦ glob_rest (drop (i + length seg) s) next segs ] in
    elim (Option-cases (index_from same_byte 0 s seg)) [
      | inl missing ↦ let e : false ≡ true = ap after (sym missing) ∙ h in absurd (cc)
      | inr (i, found) ↦
          let here = index_from-Within same_byte 0 s seg i found in
          let rest =
            glob_rest-Within (drop (i + length seg) s) next segs (ap after (sym found) ∙ h) in
          (
            subst (λ t. Within t seg) (map-same_byte s) here,
            All-drop-Within (i + length seg) s (next ∷ segs) rest,
          )
    ]

glob_segs-Within : (segs : List Bytes) (s : Bytes) → glob_segs segs s ≡ true → All (Within s) segs
unfolding glob_segs
glob_segs-Within [] s h = tt
glob_segs-Within (seg ∷ []) s h = (bytes_eq-Within seg s h, tt)
glob_segs-Within (seg ∷ next ∷ segs) s h =
    let (first, others) = both_sides (starts_with same_byte s seg) _ h in
    let (back, same) = starts_with-Within same_byte s seg first in
    (
      ([], back, sym (map-same_byte s) ∙ same),
      All-drop-Within (length seg) s (next ∷ segs)
          (glob_rest-Within (drop (length seg) s) next segs others),
    )

-- The texts of a value are among those of a list.
abbrev Covered : List Bytes → Value → Type 0
Covered texts v = (s : Bytes) → InList s (texts_of_value v) → InList s texts

abbrev AllCovered : List Bytes → List Value → Type 0
AllCovered texts = All (Covered texts)

AllCovered-append :
    (texts : List Bytes) (vs ws : List Value)
    → AllCovered texts vs
    → AllCovered texts ws
    → AllCovered texts (vs ++ ws)
AllCovered-append texts [] ws h k = k
AllCovered-append texts (v ∷ vs) ws (a, h) k = (a, AllCovered-append texts vs ws h k)

AllCovered-wider :
    (texts more : List Bytes) (vs : List Value)
    → ((s : Bytes) → InList s texts → InList s more)
    → AllCovered texts vs
    → AllCovered more vs
AllCovered-wider texts more [] w h = tt
AllCovered-wider texts more (v ∷ vs) w (a, h) =
    (λ s i. w s (a s i), AllCovered-wider texts more vs w h)

mutual
  unfolding flat texts_of_value

  flat-AllCovered : (v : Value) → AllCovered (texts_of_value v) (flat v)
  flat-AllCovered (string s) = (λ t i. i, tt)
  flat-AllCovered (object ms) = (λ t i. i, tt)
  flat-AllCovered (array xs) = flat_elements-AllCovered xs
  flat-AllCovered (number s) = (λ t i. i, tt)
  flat-AllCovered (boolean b) = (λ t i. i, tt)
  flat-AllCovered null = (λ t i. i, tt)

  flat_elements-AllCovered : (xs : Elements) → AllCovered (texts_of_elements xs) (flat_elements xs)
  flat_elements-AllCovered last = tt
  flat_elements-AllCovered (element v xs) =
      let front = texts_of_value v in
      let back = texts_of_elements xs in
      AllCovered-append (front ++ back) (flat v) (flat_elements xs)
        (AllCovered-wider front (front ++ back) (flat v) (λ s i. InList-front s front back i)
          (flat-AllCovered v))
        (AllCovered-wider back (front ++ back) (flat_elements xs)
          (λ s i. InList-back s front back i) (flat_elements-AllCovered xs))

-- All that is reached through an entry is covered.
record IsCovered (texts : List Bytes) (e : Entry) : Type 0 where
  value : AllCovered texts (flat e.value)
  walk : (path : Bytes) → AllCovered texts (e.walk path)

IsCovered-wider :
    (texts more : List Bytes) (es : List Entry)
    → ((s : Bytes) → InList s texts → InList s more)
    → All (IsCovered texts) es
    → All (IsCovered more) es
IsCovered-wider texts more [] w h = tt
IsCovered-wider texts more (e ∷ es) w (a, h) = (
  record {
    value = AllCovered-wider texts more (flat e.value) w a.value;
    walk = λ path. AllCovered-wider texts more (e.walk path) w (a.walk path);
  },
  IsCovered-wider texts more es w h,
)

at_key-AllCovered :
    (texts : List Bytes) (k : Bytes) (found : Entry → List Value) (es : List Entry)
    → ((e : Entry) → IsCovered texts e → AllCovered texts (found e))
    → All (IsCovered texts) es
    → AllCovered texts (at_key k found es)
unfolding at_key
at_key-AllCovered texts k found [] f h = tt
at_key-AllCovered texts k found (e ∷ es) f (a, h) = elim (Bool-cases (bytes_eq e.key k)) [
  | inl here ↦ rw here (f e a)
  | inr further ↦ rw further (at_key-AllCovered texts k found es f h)
]

walk_dots-AllCovered :
    (texts : List Bytes) (es : List Entry) (front path : Bytes)
    → All (IsCovered texts) es
    → AllCovered texts (walk_dots es front path)
unfolding walk_dots
walk_dots-AllCovered texts es front [] h = tt
walk_dots-AllCovered texts es front (c ∷ path) h =
    let rest = walk_dots-AllCovered texts es (front ++ c ∷ []) path h in
    elim (Bool-cases (c == 46)) [
      | inl dot ↦ rw dot (
          AllCovered-append texts (at_key front (λ e. e.walk path) es)
            (walk_dots es (front ++ c ∷ []) path)
            (at_key-AllCovered texts front (λ e. e.walk path) es (λ e k. k.walk path) h) rest)
      | inr other ↦ rw other rest
    ]

mutual
  unfolding walk texts_of_value walk_object

  walk-AllCovered : (v : Value) (path : Bytes) → AllCovered (texts_of_value v) (walk v path)
  walk-AllCovered (string s) path = tt
  walk-AllCovered (object ms) path =
      let texts = texts_of_members ms in
      let all = entries-IsCovered ms in
      AllCovered-append texts (at_key path (λ e. flat e.value) (entries ms))
        (walk_dots (entries ms) [] path)
        (at_key-AllCovered texts path (λ e. flat e.value) (entries ms) (λ e k. k.value) all)
        (walk_dots-AllCovered texts (entries ms) [] path all)
  walk-AllCovered (array xs) path = walk_elements-AllCovered xs path
  walk-AllCovered (number s) path = tt
  walk-AllCovered (boolean b) path = tt
  walk-AllCovered null path = tt

  entries-IsCovered : (ms : Members) → All (IsCovered (texts_of_members ms)) (entries ms)
  entries-IsCovered no_more = tt
  entries-IsCovered (member k v ms) =
      let front = texts_of_value v in
      let back = texts_of_members ms in
      (
        record {
          value =
              AllCovered-wider front (front ++ back) (flat v) (λ s i. InList-front s front back i)
                (flat-AllCovered v);
          walk = λ path.
              AllCovered-wider front (front ++ back) (walk v path)
                (λ s i. InList-front s front back i) (walk-AllCovered v path);
        },
        IsCovered-wider back (front ++ back) (entries ms) (λ s i. InList-back s front back i)
            (entries-IsCovered ms),
      )

  walk_elements-AllCovered :
      (xs : Elements) (path : Bytes) → AllCovered (texts_of_elements xs) (walk_elements xs path)
  walk_elements-AllCovered last path = tt
  walk_elements-AllCovered (element v xs) path =
      let front = texts_of_value v in
      let back = texts_of_elements xs in
      AllCovered-append (front ++ back) (walk v path) (walk_elements xs path)
        (AllCovered-wider front (front ++ back) (walk v path) (λ s i. InList-front s front back i)
          (walk-AllCovered v path))
        (AllCovered-wider back (front ++ back) (walk_elements xs path)
          (λ s i. InList-back s front back i) (walk_elements-AllCovered xs path))

text_eq-Within :
    (pat : Bytes) (v : Value)
    → text_eq pat v ≡ true
    → (s : Bytes) × InList s (texts_of_value v) × All (Within s) (split_stars pat)
unfolding text_eq texts_of_value glob_match
text_eq-Within pat (string s) h = (s, inl refl, glob_segs-Within (split_stars pat) s h)
text_eq-Within pat (object ms) h = absurd (cc)
text_eq-Within pat (array xs) h = absurd (cc)
text_eq-Within pat (number s) h = (s, inl refl, glob_segs-Within (split_stars pat) s h)
text_eq-Within pat (boolean b) h =
    (bool_text b, inl refl, glob_segs-Within (split_stars pat) (bool_text b) h)
text_eq-Within pat null h = (null_text, inl refl, glob_segs-Within (split_stars pat) null_text h)

module _ (parse_float : Bytes → Option ℕ) where
  eq_matches-word :
      (pat : Bytes) (v : Value)
      → parse_float pat ≡ none
      → eq_matches parse_float pat v ≡ text_eq pat v
  unfolding eq_matches
  eq_matches-word pat v word = rw (eq_matches, word) refl

  any_value-Within :
      (a : Attr) (texts : List Bytes) (vs : List Value)
      → a.op ≡ eq
      → parse_float a.value ≡ none
      → AllCovered texts vs
      → any_value parse_float a vs ≡ true
      → (s : Bytes) × InList s texts × All (Within s) (split_stars a.value)
  unfolding any_value value_matches
  any_value-Within a texts [] op word c h = absurd (cc)
  any_value-Within a texts (v ∷ vs) op word (covered, c) h =
      elim (either_side (value_matches parse_float a.op a v) (any_value parse_float a vs) h) [
        | inl here ↦
            let e =
              sym (eq_matches-word a.value v word)
              ∙ (ap (λ o. value_matches parse_float o a v) (sym op) ∙ here) in
            let (s, i, w) = text_eq-Within a.value v e in (s, covered s i, w)
        | inr there ↦ any_value-Within a texts vs op word c there
      ]

module _ (to_lower : Bytes → Bytes) (whole : Bytes → Bool) (laws : IsLower to_lower whole) where
  pub attr_matches-HasAll :
      (parse_float : Bytes → Option ℕ) (a : Attr) (l : Log)
      → a.op ≡ eq
      → parse_float a.value ≡ none
      → All (λ s. whole s ≡ true) (split_stars a.value)
      → attr_matches parse_float a l ≡ true
      → HasAll to_lower (texts_of l) (split_wild (to_lower a.value))
  unfolding attr_matches lookup split_wild walk texts_of_value
  attr_matches-HasAll parse_float a l op word whole_segs h =
      let found = lookup l.attrs a.path in
      let covered : AllCovered (texts_of_members l.attrs) found =
        walk-AllCovered (object l.attrs) a.path in
      let (s, i, w) =
        any_value-Within parse_float a (texts_of_members l.attrs) found op word covered h in
      let lowered = All-to_lower to_lower whole laws s (split_stars a.value) whole_segs w in
      (
        s,
        inr i,
        subst (λ segs. All (Within (to_lower s)) (non_empty segs))
            (sym (split_stars-to_lower to_lower whole laws a.value))
            (non_empty-All (Within (to_lower s)) (map to_lower (split_stars a.value)) lowered),
      )
