-- ===== src/LogStore/Filter.antt =====
-- From the entries of a block to the answer of a search: what is in the block is never denied.
use ozymandias.Base.{
  ℕ, suc, ◌+◌, ◌-◌, ◌^◌, ◌<◌, ◌≤◌, ◌≡◌, refl, sym, ap, ◌∙◌, true, false, not, ◌||◌, Option, none,
  some, List, [], ◌∷◌, ◌++◌, length, All, InList, arith, ltb, ◌==◌, inl, inr, Option-cases,
  length-append, take-append, drop-append,
}
use mathlib.Core.Option
use ozymandias.Base.Bytes.{Bytes}
use ozymandias.Base.Wire.{put_be, length-put_be, get_be-put_be}
use ozymandias.LogStore.{
  bloom_k, min_bloom_bytes, max_bloom_bytes, bloom_trailer_bytes, windows, see_entries, sealed,
  blob_of, build_bloom, parse_bloom, has_literal, has_literals, any_alt, may_match,
}
use ozymandias.LogStore.Sound.{
  Occurs, Occurs-seen, filled, length-filled, has_all-seen, filter_size_bounds,
}

module _ (lower : Bytes → Bytes) (crc : Bytes → ℕ) (crc_lt : (bs : Bytes) → crc bs < 2 ^ 32) where
  length-sealed :
      (bits : Bytes) → length (sealed lower crc bits) ≡ 1 + length bits + bloom_trailer_bytes
  unfolding sealed
  length-sealed bits = omega (
    arith,
    length-append bits (put_be 4 (crc (bloom_k ∷ bits))),
    length-put_be 4 (crc (bloom_k ∷ bits)),
  )

  parse-sealed :
      (bits : Bytes)
      → min_bloom_bytes ≤ length bits
      → parse_bloom crc (sealed lower crc bits) ≡ some bits
  unfolding parse_bloom sealed
  parse-sealed bits long =
      let body = bloom_k ∷ bits in
      let trailer = put_be 4 (crc body) in
      let len = length-put_be 4 (crc body) in
      let sum = length-append bits trailer in
      let fits : (ltb (suc (length (bits ++ trailer))) (1 + min_bloom_bytes + bloom_trailer_bytes)
            || not (bloom_k == bloom_k))
          ≡ false =
        ground (arith, len, sum, long) in
      let cut : length body ≡ suc (length (bits ++ trailer)) - bloom_trailer_bytes =
        omega (arith, len, sum) in
      let sum_back = get_be-put_be 4 (crc body) (omega (arith, crc_lt body)) in
      let good : (crc body == crc body) ≡ true = ground arith in
      rw (fits, take-append body trailer (suc (length (bits ++ trailer)) - bloom_trailer_bytes) cut)
        (rw (drop-append body trailer (length body) refl, sum_back, good) refl)

  has_literals-Occurs :
      (es : List (Option (List Bytes))) (all : List ℕ) (alt : List Bytes)
      → see_entries lower [] es ≡ some all
      → All (Occurs lower es) alt
      → has_literals (filled all) alt ≡ true
  unfolding has_literals has_literal
  has_literals-Occurs es all [] e h = refl
  has_literals-Occurs es all (lit ∷ alt) e (o, h) =
      let here = has_all-seen all (windows lit) (Occurs-seen lower es all lit e o) in
      let rest = has_literals-Occurs es all alt e h in ground (arith, here, rest)

  any_alt-InList :
      (bits : Bytes) (alts : List (List Bytes)) (alt : List Bytes)
      → InList alt alts
      → has_literals bits alt ≡ true
      → any_alt bits alts ≡ true
  unfolding any_alt
  any_alt-InList bits [] alt h e = elim h [ ]
  any_alt-InList bits (a ∷ alts) alt (inl same) e =
      let here : has_literals bits a ≡ true = ap (has_literals bits) same ∙ e in
      ground (arith, here)
  any_alt-InList bits (a ∷ alts) alt (inr h) e =
      let rest = any_alt-InList bits alts alt h e in ground (arith, rest)

  may_match-InList :
      (bits : Bytes) (alts : List (List Bytes)) (alt : List Bytes)
      → InList alt alts
      → has_literals bits alt ≡ true
      → may_match bits alts ≡ true
  unfolding may_match
  may_match-InList bits [] alt h e = refl
  may_match-InList bits (a ∷ alts) alt h e = any_alt-InList bits (a ∷ alts) alt h e

  -- A blob holds the filter of all that was seen.
  built-cases :
      (es : List (Option (List Bytes))) (blob : Bytes)
      → build_bloom lower crc es ≡ some blob
      → (all : List ℕ) × (see_entries lower [] es ≡ some all)
        × (sealed lower crc (filled all) ≡ blob)
  unfolding build_bloom blob_of
  built-cases es blob built = elim (Option-cases (see_entries lower [] es)) [
    | inl undecoded ↦
        let b : none ≡ some blob = ap (Option.map (blob_of lower crc)) (sym undecoded) ∙ built in
        absurd (cc)
    | inr (all, seen) ↦
        let b : some (sealed lower crc (filled all)) ≡ some blob =
          ap (Option.map (blob_of lower crc)) (sym seen) ∙ built in
        (all, seen, cc)
  ]

  -- The filter that is built for a block is read back, and lets a search skip the block only if no
  -- alternative of what the search needs has all its literals in texts of the block.
  pub build_bloom-may_match :
      (es : List (Option (List Bytes))) (blob : Bytes) (alts : List (List Bytes)) (alt : List Bytes)
      → build_bloom lower crc es ≡ some blob
      → InList alt alts
      → All (Occurs lower es) alt
      → (bits : Bytes) × (parse_bloom crc blob ≡ some bits) × (may_match bits alts ≡ true)
  build_bloom-may_match es blob alts alt built h o =
      let (all, seen, same) = built-cases es blob built in
      let long = filter_size_bounds (length all) in
      (
        filled all,
        ap (parse_bloom crc) (sym same)
            ∙ parse-sealed (filled all) (omega (arith, long, length-filled all)),
        may_match-InList (filled all) alts alt h (has_literals-Occurs es all alt seen o),
      )

  -- A filter takes between 13 and 65541 bytes, whatever the block holds.
  pub build_bloom_size :
      (es : List (Option (List Bytes))) (blob : Bytes)
      → build_bloom lower crc es ≡ some blob
      → (1 + min_bloom_bytes + bloom_trailer_bytes ≤ length blob)
        × (length blob ≤ 1 + max_bloom_bytes + bloom_trailer_bytes)
  build_bloom_size es blob built =
      let (all, seen, same) = built-cases es blob built in
      let long = filter_size_bounds (length all) in
      let n = ap length same in
      (
        omega (arith, long, n, length-filled all, length-sealed (filled all)),
        omega (arith, long, n, length-filled all, length-sealed (filled all)),
      )
