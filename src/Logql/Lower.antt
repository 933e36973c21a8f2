-- ===== src/Logql/Lower.antt =====
-- What strings.ToLower is documented to do, character by character, and what follows for patterns.
use ozymandias.Base.{
  ℕ, ◌≡◌, ◌≢◌, refl, sym, ap, ◌∙◌, Bool, true, false, List, [], ◌∷◌, ◌++◌, map, All, ◌==◌, ==_iff,
  inl, inr, Bool-cases,
}
use ozymandias.Base.Bytes.{Bytes}
use ozymandias.Logql.Search.{star, split_stars, non_empty, lower_byte, is_ascii}

-- A literal stands in a text.
abbrev pub Within : Bytes → Bytes → Type 0
Within s lit = (front : Bytes) × (back : Bytes) × (s ≡ front ++ (lit ++ back))

abbrev pub HasNoStar : Bytes → Type 0
HasNoStar = All (λ (b : ℕ). (b == star) ≡ false)

-- `whole` tells whether a text is of whole characters, as utf8.ValidString does. ASCII is lower-cased
-- byte by byte; a text of whole characters is lower-cased by itself, whatever stands around it; and no
-- other character has `*` as its lower case.
pub record IsLower (to_lower : Bytes → Bytes) (whole : Bytes → Bool) : Type 0 where
  pub ascii : (s : Bytes) → is_ascii s ≡ true → to_lower s ≡ map lower_byte s
  pub star_whole : whole (star ∷ []) ≡ true
  pub around :
      (front s back : Bytes)
      → whole s ≡ true
      → s ≢ []
      → to_lower (front ++ (s ++ back)) ≡ to_lower front ++ (to_lower s ++ to_lower back)
  pub starless : (s : Bytes) → HasNoStar s → HasNoStar (to_lower s)

-- The pattern of segments.
abbrev unsplit : List Bytes → Bytes
unsplit [] = []
unsplit (s ∷ []) = s
unsplit (s ∷ t ∷ ss) = s ++ star ∷ unsplit (t ∷ ss)

-- The segments of a pattern, of which there is one at least, without `*`.
record IsParted (pat : Bytes) : Type 0 where
  first : Bytes
  others : List Bytes
  split : split_stars pat ≡ first ∷ others
  joined : unsplit (first ∷ others) ≡ pat
  starless : All HasNoStar (first ∷ others)

unsplit_onto : (b : ℕ) (s : Bytes) (ss : List Bytes) → unsplit ((b ∷ s) ∷ ss) ≡ b ∷ unsplit (s ∷ ss)
unsplit_onto b s [] = refl
unsplit_onto b s (t ∷ ss) = refl

split_stars-IsParted : (pat : Bytes) → IsParted pat
unfolding split_stars
split_stars-IsParted [] = record {
  first = [];
  others = [];
  split = refl;
  joined = refl;
  starless = (tt, tt);
}
split_stars-IsParted (b ∷ pat) =
    let r = split_stars-IsParted pat in
    let parts = r.split in
    elim (Bool-cases (b == star)) [
      | inl at_star ↦
          let same : b ≡ star = (==_iff b star).0 at_star in
          record {
            first = [];
            others = r.first ∷ r.others;
            split = rw (at_star, parts) refl;
            joined = ap (λ t. star ∷ t) r.joined ∙ ap (λ c. c ∷ pat) (sym same);
            starless = (tt, r.starless);
          }
      | inr other ↦ record {
        first = b ∷ r.first;
        others = r.others;
        split = rw (other, parts) refl;
        joined = unsplit_onto b r.first r.others ∙ ap (λ t. b ∷ t) r.joined;
        starless = ((other, r.starless.0), r.starless.1);
      }
    ]

split_stars-HasNoStar : (s : Bytes) → HasNoStar s → split_stars s ≡ s ∷ []
unfolding split_stars
split_stars-HasNoStar [] h = refl
split_stars-HasNoStar (b ∷ s) (other, h) = rw (other, split_stars-HasNoStar s h) refl

split_stars-append :
    (s pat : Bytes) → HasNoStar s → split_stars (s ++ star ∷ pat) ≡ s ∷ split_stars pat
unfolding split_stars
split_stars-append [] pat h = refl
split_stars-append (b ∷ s) pat (other, h) = rw (other, split_stars-append s pat h) refl

module _ (to_lower : Bytes → Bytes) (whole : Bytes → Bool) (laws : IsLower to_lower whole) where
  lower-nil : to_lower [] ≡ []
  unfolding is_ascii
  lower-nil = laws.ascii [] refl

  lower-star : to_lower (star ∷ []) ≡ star ∷ []
  unfolding is_ascii lower_byte
  lower-star = laws.ascii (star ∷ []) refl

  -- The segments of a pattern in lower case are those of the pattern, in lower case.
  split_stars-unsplit :
      (s : Bytes) (ss : List Bytes)
      → All HasNoStar (s ∷ ss)
      → split_stars (to_lower (unsplit (s ∷ ss))) ≡ map to_lower (s ∷ ss)
  split_stars-unsplit s [] (h, hs) = split_stars-HasNoStar (to_lower s) (laws.starless s h)
  split_stars-unsplit s (t ∷ ss) (h, hs) =
      let rest = unsplit (t ∷ ss) in
      ap split_stars (
        laws.around s (star ∷ []) rest laws.star_whole (λ e. cc)
        ∙ ap (λ x. to_lower s ++ (x ++ to_lower rest)) lower-star)
      ∙ (split_stars-append (to_lower s) (to_lower rest) (laws.starless s h)
          ∙ ap (λ x. to_lower s ∷ x) (split_stars-unsplit t ss hs))

  pub split_stars-to_lower :
      (pat : Bytes) → split_stars (to_lower pat) ≡ map to_lower (split_stars pat)
  split_stars-to_lower pat =
      let r = split_stars-IsParted pat in
      let split = r.split in
      ap (λ p. split_stars (to_lower p)) (sym r.joined)
      ∙ (split_stars-unsplit r.first r.others r.starless ∙ ap (map to_lower) (sym split))

  -- A segment of whole characters of a text is in the text in lower case.
  Within-to_lower :
      (s lit : Bytes) → whole lit ≡ true → Within s lit → Within (to_lower s) (to_lower lit)
  Within-to_lower s [] w h = ([], to_lower s, ap (λ l. l ++ to_lower s) (sym lower-nil))
  Within-to_lower s (b ∷ lit) w (front, back, same) = (
    to_lower front,
    to_lower back,
    ap to_lower same ∙ laws.around front (b ∷ lit) back w (λ e. cc),
  )

  pub All-to_lower :
      (s : Bytes) (segs : List Bytes)
      → All (λ l. whole l ≡ true) segs
      → All (Within s) segs
      → All (Within (to_lower s)) (map to_lower segs)
  All-to_lower s [] w h = tt
  All-to_lower s (seg ∷ segs) (a, w) (b, h) = (Within-to_lower s seg a b, All-to_lower s segs w h)

pub non_empty-All : (P : Bytes → Type 0) (ss : List Bytes) → All P ss → All P (non_empty ss)
unfolding non_empty
non_empty-All P [] h = tt
non_empty-All P ([] ∷ ss) (a, h) = non_empty-All P ss h
non_empty-All P ((b ∷ s) ∷ ss) (a, h) = (a, non_empty-All P ss h)
