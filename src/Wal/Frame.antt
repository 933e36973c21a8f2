-- ===== src/Wal/Frame.antt =====
-- The framing of records in internal/tsdb/wal/wal.go: length, type, checksum, payload.
use ozymandias.Base.{ℕ, ◌+◌, ◌≤◌, ◌<◌, ◌≡◌, List, [], ◌∷◌, ◌++◌, length, arith}
use ozymandias.Base.{length-append}
use ozymandias.Base.Bytes.{Bytes}
use ozymandias.Base.Wire.{put_be, length-put_be}

abbrev pub header_size : ℕ
header_size = 4 + 1 + 4

abbrev pub max_record_size : ℕ
max_record_size = 16777216

abbrev pub default_segment_size : ℕ
default_segment_size = 33554432

-- `Type` and `Data`
pub record Record : Type 0 where
  pub kind : ℕ
  pub payload : Bytes

-- A record that `Log` accepts.
pub record IsRecord (r : Record) : Type 0 where
  pub set : 0 < r.kind
  pub byte : r.kind < 256
  pub within : length r.payload ≤ max_record_size

module _ (crc : Bytes → ℕ) where
  -- The scratch header that `Log` fills.
  unfoldable pub header : Record → Bytes
  header r = put_be 4 (length r.payload) ++ r.kind ∷ put_be 4 (crc r.payload)

  unfoldable pub frame : Record → Bytes
  unfolding header
  frame r = header r ++ r.payload

  unfoldable pub frames : List Record → Bytes
  frames [] = []
  frames (r ∷ rs) = frame r ++ frames rs

  pub length-header : (r : Record) → length (header r) ≡ header_size
  unfolding header
  length-header r =
      let tail = length-put_be 4 (crc r.payload) in
      let first = length-put_be 4 (length r.payload) in
      omega (
        arith,
        first,
        tail,
        length-append (put_be 4 (length r.payload)) (r.kind ∷ put_be 4 (crc r.payload)),
      )

  pub length-frame : (r : Record) → length (frame r) ≡ header_size + length r.payload
  unfolding frame
  length-frame r = omega (arith, length-header r, length-append (header r) r.payload)
