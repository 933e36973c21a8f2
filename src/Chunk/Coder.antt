-- ===== src/Chunk/Coder.antt =====
-- internal/tsdb/chunkenc/chunk.go: what the appender and the iterator of a chunk have in common.
-- An int64 timestamp and a float64 value are bit patterns, so `Float64bits` is the identity.
use ozymandias.Base.{
  ℕ, zero, suc, ◌+◌, ◌-◌, ◌*◌, ◌/◌, ◌%◌, Bool, false, true, Option, none, some, length, ltb, List,
  [], ◌∷◌, if◌then◌else◌, leb, ◌==◌,
}
use ozymandias.Chunk.Stream.{Writer}

abbrev pub max_samples_per_chunk : ℕ
max_samples_per_chunk = 120

abbrev pub header_len : ℕ
header_len = 2

-- The state that the next sample is encoded against. `leading` 0xff means "no window yet".
pub record Coder : Type 0 where
  pub t : ℕ
  pub v : ℕ
  pub delta : ℕ
  pub leading : ℕ
  pub trailing : ℕ

abbrev pub start : Coder
start = record { t = 0; v = 0; delta = 0; leading = 0xff; trailing = 0 }

-- A delta-of-delta size class; `bits` is 0 for the one of no change.
pub record Bucket : Type 0 where
  pub prefix : ℕ
  pub prefix_bits : ℕ
  pub bits : ℕ

abbrev pub dod_buckets : List Bucket
dod_buckets =
    record { prefix = 0b0; prefix_bits = 1; bits = 0 }
    ∷ record { prefix = 0b10; prefix_bits = 2; bits = 14 }
    ∷ record { prefix = 0b110; prefix_bits = 3; bits = 17 }
    ∷ record { prefix = 0b1110; prefix_bits = 4; bits = 20 }
    ∷ record { prefix = 0b1111; prefix_bits = 4; bits = 64 }
    ∷ []

-- `bits.Len64` and `bits.TrailingZeros64`, by halving at most 64 times.
unfoldable pub bit_len : ℕ → ℕ → ℕ
bit_len zero x = 0
bit_len (suc f) x = let rest = bit_len f (x / 2) in if x == 0 then 0 else suc rest

unfoldable pub leading_zeros : ℕ → ℕ
leading_zeros x = 64 - bit_len 64 x

unfoldable pub halvings : ℕ → ℕ → ℕ
halvings zero x = 0
halvings (suc f) x = let rest = halvings f (x / 2) in if x % 2 == 1 then 0 else suc rest

unfoldable pub trailing_zeros : ℕ → ℕ
trailing_zeros x = halvings 64 x

-- `uint16` at the head of the bytes.
unfoldable pub count_of : List ℕ → ℕ
count_of [] = 0
count_of (a ∷ []) = 0
count_of (a ∷ b ∷ rest) = a * 256 + b

unfoldable pub put_count : ℕ → List ℕ → List ℕ
put_count n [] = []
put_count n (a ∷ []) = a ∷ []
put_count n (a ∷ b ∷ rest) = n / 256 % 256 ∷ n % 256 ∷ rest

-- `borrowed` says that the bytes belong to somebody else. A list is a value, so a copy of it is
-- the list itself.
pub record Chunk : Type 0 where
  pub b : Writer
  pub borrowed : Bool

unfoldable pub new_chunk : Chunk
new_chunk = record { b = record { stream = 0 ∷ 0 ∷ []; count = 0 }; borrowed = false }

unfoldable pub own : Chunk → Chunk
own c = record c { borrowed = false }

unfoldable pub num_samples : Chunk → ℕ
num_samples c = count_of c.b.stream

unfoldable pub is_full : Chunk → Bool
is_full c = leb max_samples_per_chunk (num_samples c)

-- `FromBytes`; `none` where the bytes are shorter than a header.
unfoldable pub from_bytes : List ℕ → Option Chunk
from_bytes b =
    if ltb (length b) header_len
    then none
    else some (record { b = record { stream = b; count = 0 }; borrowed = true })

-- The zero value of the struct.
abbrev pub zero_chunk : Chunk
zero_chunk = record { b = record { stream = []; count = 0 }; borrowed = false }
