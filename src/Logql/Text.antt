-- ===== src/Logql/Text.antt =====
-- What a text term finds: all its segments in one text of the log.
use ozymandias.Base.{
  ℕ, zero, suc, ◌+◌, ◌≡◌, refl, sym, ap, ◌∙◌, Bool, true, false, Option, none, some, List, [], ◌∷◌,
  ◌++◌, length, drop, map, if◌then◌else◌, ◌==◌, ==_iff, All, InList, InList-front, InList-back, inl,
  inr, Bool-cases, either_side, both_sides, Option-cases,
}
use mathlib.Core.Path.{subst}
use ozymandias.Base.Bytes.{Bytes}
use ozymandias.Logql.{
  Log, Value, Members, Elements, string, object, array, number, boolean, null, no_more, member,
  last, element, texts_of_value, texts_of_members, texts_of_elements, texts_of, any_string,
  any_in_members, any_in_elements,
}
use ozymandias.Logql.Lower.{Within}
use ozymandias.Logql.Search.{
  same_byte, lower_byte, is_ascii, starts_with, index_from, contains_from, contains_wild,
  text_matches, split_wild,
}

-- A text of a list has all literals.
abbrev pub HasAll : (Bytes → Bytes) → List Bytes → List Bytes → Type 0
HasAll to_lower texts lits =
    (s : Bytes) × InList s texts × All (λ lit. Within (to_lower s) lit) lits

module _ (fold : ℕ → ℕ) where
  pub starts_with-Within :
      (s needle : Bytes)
      → starts_with fold s needle ≡ true
      → (back : Bytes) × (map fold s ≡ needle ++ back)
  unfolding starts_with
  starts_with-Within s [] h = (map fold s, refl)
  starts_with-Within [] (n ∷ needle) h = absurd (cc)
  starts_with-Within (c ∷ s) (n ∷ needle) h =
      let (first, more) = both_sides (fold c == n) (starts_with fold s needle) h in
      let (back, same) = starts_with-Within s needle more in
      let e : fold c ≡ n = (==_iff (fold c) n).0 first in (back, cc)

  pub index_from-Within :
      (i : ℕ) (s needle : Bytes) (j : ℕ)
      → index_from fold i s needle ≡ some j
      → Within (map fold s) needle
  unfolding index_from
  index_from-Within i [] needle j h = elim (Bool-cases (starts_with fold [] needle)) [
    | inl found ↦ let (back, same) = starts_with-Within [] needle found in ([], back, same)
    | inr missing ↦
        let e : none ≡ some j = ap (λ b. if b then some i else none) (sym missing) ∙ h in
        absurd (cc)
  ]
  index_from-Within i (c ∷ s) needle j h = elim (Bool-cases (starts_with fold (c ∷ s) needle)) [
    | inl found ↦ let (back, same) = starts_with-Within (c ∷ s) needle found in ([], back, same)
    | inr missing ↦
        let e : index_from fold (i + 1) s needle ≡ some j =
          ap (λ b. if b then some i else index_from fold (i + 1) s needle) (sym missing) ∙ h in
        let (front, back, same) = index_from-Within (i + 1) s needle j e in
        (fold c ∷ front, back, ap (λ t. fold c ∷ t) same)
  ]

  drop-Within : (n : ℕ) (s lit : Bytes) → Within (map fold (drop n s)) lit → Within (map fold s) lit
  drop-Within zero s lit h = h
  drop-Within (suc n) [] lit h = h
  drop-Within (suc n) (c ∷ s) lit h =
      let (front, back, same) = drop-Within n s lit h in
      (fold c ∷ front, back, ap (λ t. fold c ∷ t) same)

  contains_from-Within :
      (s : Bytes) (from : ℕ) (segs : List Bytes)
      → contains_from fold s from segs ≡ true
      → All (λ lit. Within (map fold s) lit) segs
  unfolding contains_from
  contains_from-Within s from [] h = tt
  contains_from-Within s from (seg ∷ segs) h =
      let after : Option ℕ → Bool =
        λ o. elim o [ none ↦ false | some i ↦ contains_from fold s (i + length seg) segs ] in
      elim (Option-cases (index_from fold from (drop from s) seg)) [
        | inl missing ↦ let e : false ≡ true = ap after (sym missing) ∙ h in absurd (cc)
        | inr (i, found) ↦ (
          drop-Within from s seg (index_from-Within from (drop from s) seg i found),
          contains_from-Within s (i + length seg) segs (ap after (sym found) ∙ h),
        )
      ]

pub map-same_byte : (s : Bytes) → map same_byte s ≡ s
map-same_byte [] = refl
map-same_byte (c ∷ s) = ap (λ t. c ∷ t) (map-same_byte s)

module _ (to_lower : Bytes → Bytes)
    (ascii : (s : Bytes) → is_ascii s ≡ true → to_lower s ≡ map lower_byte s) where
  contains_wild-Within :
      (s : Bytes) (segs : List Bytes)
      → contains_wild to_lower s segs ≡ true
      → All (λ lit. Within (to_lower s) lit) segs
  unfolding contains_wild
  contains_wild-Within s segs h =
      let of_case : Bool → Bool = λ b.
        if b
        then contains_from lower_byte s 0 segs
        else contains_from same_byte (to_lower s) 0 segs in
      elim (Bool-cases (is_ascii s)) [
        | inl plain ↦
            let e : contains_from lower_byte s 0 segs ≡ true = ap of_case (sym plain) ∙ h in
            subst (λ t. All (λ lit. Within t lit) segs) (sym (ascii s plain))
              (contains_from-Within lower_byte s 0 segs e)
        | inr wide ↦
            let e : contains_from same_byte (to_lower s) 0 segs ≡ true =
              ap of_case (sym wide) ∙ h in
            subst (λ t. All (λ lit. Within t lit) segs) (map-same_byte (to_lower s))
              (contains_from-Within same_byte (to_lower s) 0 segs e)
      ]

mutual
  unfolding any_string texts_of_value

  any_string-InList :
      (fn : Bytes → Bool) (v : Value)
      → any_string fn v ≡ true
      → (s : Bytes) × InList s (texts_of_value v) × (fn s ≡ true)
  any_string-InList fn (string s) h = (s, inl refl, h)
  any_string-InList fn (object ms) h = any_in_members-InList fn ms h
  any_string-InList fn (array xs) h = any_in_elements-InList fn xs h
  any_string-InList fn (number s) h = absurd (cc)
  any_string-InList fn (boolean b) h = absurd (cc)
  any_string-InList fn null h = absurd (cc)

  any_in_members-InList :
      (fn : Bytes → Bool) (ms : Members)
      → any_in_members fn ms ≡ true
      → (s : Bytes) × InList s (texts_of_members ms) × (fn s ≡ true)
  any_in_members-InList fn no_more h = absurd (cc)
  any_in_members-InList fn (member k v ms) h =
      elim (either_side (any_string fn v) (any_in_members fn ms) h) [
        | inl here ↦
            let (s, i, e) = any_string-InList fn v here in
            (s, InList-front s (texts_of_value v) (texts_of_members ms) i, e)
        | inr there ↦
            let (s, i, e) = any_in_members-InList fn ms there in
            (s, InList-back s (texts_of_value v) (texts_of_members ms) i, e)
      ]

  any_in_elements-InList :
      (fn : Bytes → Bool) (xs : Elements)
      → any_in_elements fn xs ≡ true
      → (s : Bytes) × InList s (texts_of_elements xs) × (fn s ≡ true)
  any_in_elements-InList fn last h = absurd (cc)
  any_in_elements-InList fn (element v xs) h =
      elim (either_side (any_string fn v) (any_in_elements fn xs) h) [
        | inl here ↦
            let (s, i, e) = any_string-InList fn v here in
            (s, InList-front s (texts_of_value v) (texts_of_elements xs) i, e)
        | inr there ↦
            let (s, i, e) = any_in_elements-InList fn xs there in
            (s, InList-back s (texts_of_value v) (texts_of_elements xs) i, e)
      ]

module _ (to_lower : Bytes → Bytes)
    (ascii : (s : Bytes) → is_ascii s ≡ true → to_lower s ≡ map lower_byte s) where
  -- A text term that matches has all its segments in one text of the log.
  pub text_matches-HasAll :
      (value : Bytes) (l : Log)
      → text_matches to_lower value l ≡ true
      → HasAll to_lower (texts_of l) (split_wild (to_lower value))
  unfolding text_matches
  text_matches-HasAll value l h =
      let segs = split_wild (to_lower value) in
      let found = contains_wild-Within to_lower ascii in
      elim (either_side (contains_wild to_lower l.message segs) _ h) [
        | inl here ↦ (l.message, inl refl, found l.message segs here)
        | inr there ↦
            let (s, i, e) =
              any_in_members-InList (λ s. contains_wild to_lower s segs) l.attrs there in
            (s, inr i, found s segs e)
      ]
