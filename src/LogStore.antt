-- ===== src/LogStore.antt =====
-- internal/logstore/bloom.go: the filter that lets a search skip a block of logs. What a log is decoded
-- to, strings.ToLower and CRC-32C are parameters here; LogStore/Skip puts the filter together with the
-- needs of a query (Logql).
pub mod Bits
pub mod Sound
pub mod Filter
pub mod Skip
mod Tests
use ozymandias.Base.{
  ℕ, zero, suc, ◌+◌, ◌-◌, ◌*◌, ◌/◌, ◌%◌, ◌^◌, max, min, bit_or, bit_and, bit_xor, Bool, true, false,
  not, ◌&&◌, ◌||◌, Option, none, some, List, [], ◌∷◌, ◌++◌, length, take, drop, if◌then◌else◌, ltb,
  ◌==◌,
}
use mathlib.Core.Option
use ozymandias.Base.Bytes.{Bytes}
use ozymandias.Base.Wire.{put_be, get_be}

abbrev pub bloom_k : ℕ
bloom_k = 4

abbrev pub bloom_bits_per_item : ℕ
bloom_bits_per_item = 8

abbrev pub min_bloom_bytes : ℕ
min_bloom_bytes = 8

abbrev pub max_bloom_bytes : ℕ
max_bloom_bytes = 65536

abbrev pub bloom_trailer_bytes : ℕ
bloom_trailer_bytes = 4

-- The bits of three bytes do not meet, so `|` is a sum.
unfoldable pub trigram : ℕ → ℕ → ℕ → ℕ
trigram a b c = a * 2 ^ 16 + b * 2 ^ 8 + c

-- The windows of a text.
unfoldable pub windows : Bytes → List ℕ
unfolding trigram
windows (a ∷ b ∷ c ∷ s) = trigram a b c ∷ windows (b ∷ c ∷ s)
windows s = []

-- The 64-bit mix of a trigram.
unfoldable pub mix : ℕ → ℕ
mix t =
    let x = t * 0x9E3779B97F4A7C15 % 2 ^ 64 in
    let y = bit_xor x (x / 2 ^ 29) * 0xBF58476D1CE4E5B9 % 2 ^ 64 in bit_xor y (y / 2 ^ 32)

-- The rounds of `probes` from the `i`-th.
unfoldable pub probes_from : ℕ → ℕ → ℕ → ℕ → ℕ → List ℕ
probes_from zero i h1 h2 m = []
probes_from (suc rounds) i h1 h2 m = ((h1 + i * h2) % m) ∷ probes_from rounds (i + 1) h1 h2 m

-- The bits that `probes` hands to its function.
unfoldable pub probes : ℕ → ℕ → List ℕ
unfolding mix probes_from
probes t m = let x = mix t in probes_from bloom_k 0 (x % 2 ^ 32) (bit_or (x / 2 ^ 32 % 2 ^ 32) 1) m

-- `bits[i] |= mask`
unfoldable pub or_at : ℕ → ℕ → Bytes → Bytes
or_at i mask [] = []
or_at zero mask (x ∷ xs) = bit_or x mask ∷ xs
or_at (suc i) mask (x ∷ xs) = x ∷ or_at i mask xs

-- `bits[i] & mask != 0`
unfoldable pub test_at : ℕ → ℕ → Bytes → Bool
test_at i mask [] = false
test_at zero mask (x ∷ xs) = not (bit_and x mask == 0)
test_at (suc i) mask (x ∷ xs) = test_at i mask xs

unfoldable pub set_bits : Bytes → List ℕ → Bytes
unfolding or_at
set_bits bits [] = bits
set_bits bits (b ∷ bs) = set_bits (or_at (b / 8) (2 ^ (b % 8)) bits) bs

unfoldable pub all_set : Bytes → List ℕ → Bool
unfolding test_at
all_set bits [] = true
all_set bits (b ∷ bs) = test_at (b / 8) (2 ^ (b % 8)) bits && all_set bits bs

-- `seen`, without repetition.
unfoldable pub is_seen : ℕ → List ℕ → Bool
is_seen t [] = false
is_seen t (s ∷ ss) = s == t || is_seen t ss

unfoldable pub add_seen : List ℕ → List ℕ → List ℕ
unfolding is_seen
add_seen seen [] = seen
add_seen seen (t ∷ ts) = add_seen (if is_seen t seen then seen else t ∷ seen) ts

unfoldable pub zeros : ℕ → Bytes
zeros zero = []
zeros (suc n) = 0 ∷ zeros n

-- The second loop of `buildBloom`, over the trigrams.
unfoldable pub fill : ℕ → Bytes → List ℕ → Bytes
unfolding probes set_bits
fill m bits [] = bits
fill m bits (t ∷ ts) = fill m (set_bits bits (probes t m)) ts

unfoldable pub filter_size : ℕ → ℕ
filter_size n = min (max ((n * bloom_bits_per_item + 7) / 8) min_bloom_bytes) max_bloom_bytes

module _ (lower : Bytes → Bytes) where
  -- The windows of the lower-cased texts of a log.
  unfoldable pub see_texts : List ℕ → List Bytes → List ℕ
  unfolding add_seen windows
  see_texts seen [] = seen
  see_texts seen (s ∷ ss) = see_texts (add_seen seen (windows (lower s))) ss

  -- The first loop, over the entries; `none` where a body cannot be decoded.
  unfoldable pub see_entries : List ℕ → List (Option (List Bytes)) → Option (List ℕ)
  unfolding see_texts
  see_entries seen [] = some seen
  see_entries seen (none ∷ es) = none
  see_entries seen (some texts ∷ es) = see_entries (see_texts seen texts) es

  module _ (crc : Bytes → ℕ) where
    -- The blob of a filter.
    unfoldable pub sealed : Bytes → Bytes
    sealed bits = bloom_k ∷ bits ++ put_be 4 (crc (bloom_k ∷ bits))

    unfoldable pub blob_of : List ℕ → Bytes
    unfolding fill filter_size zeros sealed
    blob_of seen =
        let size = filter_size (length seen) in sealed (fill (size * 8) (zeros size) seen)

    -- `buildBloom`
    unfoldable pub build_bloom : List (Option (List Bytes)) → Option Bytes
    unfolding see_entries blob_of
    build_bloom entries = Option.map blob_of (see_entries [] entries)

abbrev first_is : ℕ → Bytes → Bool
first_is n [] = false
first_is n (b ∷ bs) = b == n

module _ (crc : Bytes → ℕ) where
  -- `parseBloom`; a view is its bits.
  unfoldable pub parse_bloom : Bytes → Option Bytes
  parse_bloom blob =
      if ltb (length blob) (1 + min_bloom_bytes + bloom_trailer_bytes)
        || not (first_is bloom_k blob)
      then none
      else (let body = take (length blob - bloom_trailer_bytes) blob in
          if crc body == get_be (drop (length body) blob) then some (drop 1 body) else none)

-- `bloomView.has`
unfoldable pub has : Bytes → ℕ → Bool
unfolding probes all_set
has bits t = all_set bits (probes t (length bits * 8))

unfoldable pub has_all : Bytes → List ℕ → Bool
unfolding has
has_all bits [] = true
has_all bits (t ∷ ts) = has bits t && has_all bits ts

-- `hasLiteral`
unfoldable pub has_literal : Bytes → Bytes → Bool
unfolding has_all windows
has_literal bits lit = has_all bits (windows lit)

unfoldable pub has_literals : Bytes → List Bytes → Bool
unfolding has_literal
has_literals bits [] = true
has_literals bits (l ∷ ls) = has_literal bits l && has_literals bits ls

unfoldable pub any_alt : Bytes → List (List Bytes) → Bool
unfolding has_literals
any_alt bits [] = false
any_alt bits (a ∷ as') = has_literals bits a || any_alt bits as'

-- `mayMatch`, of the alternatives of a need.
unfoldable pub may_match : Bytes → List (List Bytes) → Bool
unfolding any_alt
may_match bits [] = true
may_match bits (a ∷ as') = any_alt bits (a ∷ as')
