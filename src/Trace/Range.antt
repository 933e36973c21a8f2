-- ===== src/Trace/Range.antt =====
-- A range scan from a prefix to its successor.
use ozymandias.Base.{
  ℕ, ◌<◌, ◌≡◌, refl, Bool, true, false, not, ◌&&◌, Option, none, some, [], ◌∷◌, All, arith, ◌==◌,
  Option-cases, inl, inr,
}
use ozymandias.Base.Bytes.{Bytes, bytes_le}
use ozymandias.Trace.{successor}

abbrev pub has_prefix : Bytes → Bytes → Bool
has_prefix [] k = true
has_prefix (b ∷ bs) [] = false
has_prefix (b ∷ bs) (c ∷ cs) = b == c && has_prefix bs cs

abbrev pub is_before : Bytes → Option Bytes → Bool
is_before k none = true
is_before k (some end) = not (bytes_le end k)

-- The keys from a prefix on and before its successor, or to the end where it has none, are exactly
-- the keys that begin with the prefix.
pub successor_scan :
    (p k : Bytes)
    → All (λ (b : ℕ). b < 256) k
    → (bytes_le p k && is_before k (successor p)) ≡ has_prefix p k
unfolding successor bytes_le
successor_scan [] k h = refl
successor_scan (b ∷ bs) [] h = refl
successor_scan (b ∷ bs) (c ∷ cs) (a, h) =
    let rest = successor_scan bs cs h in
    elim (Option-cases (successor bs)) [
      | inl last ↦ let r = rw last at rest in rw last (ground (arith, a, r))
      | inr (s, some_end) ↦ let r = rw some_end at rest in rw some_end (ground (arith, a, r))
    ]
