-- ===== src/LogStore/Skip.antt =====
-- A search that skips blocks by their filters: the needs of a query against the filter of a block.
use ozymandias.Base.{
  ℕ, ◌≡◌, refl, sym, ◌<◌, ◌^◌, Bool, true, Option, none, some, List, [], ◌∷◌, map, All, InList, inl,
  inr,
}
use mathlib.Core.Option
use mathlib.Core.Path.{subst}
use ozymandias.Base.Bytes.{Bytes}
use ozymandias.Logql.{Log, Node, texts_of}
use ozymandias.Logql.Match.{compile}
use ozymandias.Logql.Needs.{needs_of}
use ozymandias.Logql.Lower.{IsLower}
use ozymandias.Logql.Sound.{Held, IsWholeQuery, compile-needs}
use ozymandias.LogStore.{build_bloom, parse_bloom, may_match}
use ozymandias.LogStore.Sound.{HasText, Occurs}
use ozymandias.LogStore.Filter.{build_bloom-may_match}

-- What `buildBloom` sees of the entries of a block; `none` is a body that cannot be decoded.
abbrev pub texts_of_block : List (Option Log) → List (Option (List Bytes))
texts_of_block block = map (Option.map texts_of) block

log_HasText :
    (block : List (Option Log)) (l : Log) (s : Bytes)
    → InList (some l) block
    → InList s (texts_of l)
    → HasText (texts_of_block block) s
log_HasText [] l s i j = elim i [ ]
log_HasText (none ∷ block) l s (inl e) j = absurd (cc)
log_HasText (none ∷ block) l s (inr i) j = log_HasText block l s i j
log_HasText (some m ∷ block) l s (inl e) j =
    let same : m ≡ l = cc in inl (subst (λ t. InList s (texts_of t)) (sym same) j)
log_HasText (some m ∷ block) l s (inr i) j = inr (log_HasText block l s i j)

module _ (to_lower : Bytes → Bytes) (whole : Bytes → Bool) (laws : IsLower to_lower whole)
    (parse_float : Bytes → Option ℕ) where
  Held-Occurs :
      (block : List (Option Log)) (l : Log) (lits : List Bytes)
      → InList (some l) block
      → All (Held to_lower l) lits
      → All (Occurs to_lower (texts_of_block block)) lits
  Held-Occurs block l [] i h = tt
  Held-Occurs block l (lit ∷ lits) i ((s, j, (f, b, same)), h) = (
    record { text = s; in_block = log_HasText block l s i j; front = f; back = b; around = same },
    Held-Occurs block l lits i h,
  )

  module _ (crc : Bytes → ℕ) (crc_lt : (bs : Bytes) → crc bs < 2 ^ 32) where
    -- No search misses a log because of a filter: if a log of a block satisfies a query, the filter that
    -- was built for the block is read back and may match what the query needs. Checksums have 32 bits,
    -- strings.ToLower goes character by character, and the patterns of attribute terms that are not under
    -- a NOT are of whole characters between their wildcards.
    pub compile-may_match :
        (block : List (Option Log)) (blob : Bytes) (q : Option Node) (l : Log)
        → build_bloom to_lower crc (texts_of_block block) ≡ some blob
        → InList (some l) block
        → IsWholeQuery whole q
        → compile to_lower parse_float q l ≡ true
        → (bits : Bytes) × (parse_bloom crc blob ≡ some bits)
          × (may_match bits (needs_of to_lower parse_float q) ≡ true)
    unfolding may_match
    compile-may_match block blob q l built i w h =
        let es = texts_of_block block in
        let filter = build_bloom-may_match to_lower crc crc_lt es blob in
        elim (compile-needs to_lower whole laws parse_float q l w h) [
          | inl free ↦
              let (bits, read, may) = filter ([] ∷ []) [] built (inl refl) tt in
              (bits, read, rw free refl)
          | inr (alt, j, held) ↦
              filter (needs_of to_lower parse_float q) alt built j (Held-Occurs block l alt i held)
        ]
