-- ===== src/Head.antt =====
-- internal/tsdb/head/record.go: the records of a head in its log, a series with its id or a batch of
-- samples, and which of them a checkpoint keeps. The calls of encoding/binary are written out; a float64
-- is its bit pattern.
pub mod Varint
pub mod Records
pub mod Kept
mod Tests
use ozymandias.Base.{
  ℕ, zero, suc, ◌+◌, ◌*◌, ◌/◌, ◌%◌, Bool, true, false, not, ◌&&◌, Option, none, some, List, [], ◌∷◌,
  ◌++◌, length, take, drop, if◌then◌else◌, ltb, leb, ◌==◌,
}
use ozymandias.Base.Bytes.{Bytes}
use ozymandias.Base.Word.{signed_lt}
use ozymandias.Chunk.Stream.{zig_zag, undo_zig_zag}
use ozymandias.Wal.Frame.{Record}

abbrev pub record_series : ℕ
record_series = 1

abbrev pub record_samples : ℕ
record_samples = 2

pub record Tag : Type 0 where
  pub key : Bytes
  pub value : Bytes

pub record SeriesRef : Type 0 where
  pub metric : Bytes
  pub tags : List Tag

pub record Sample : Type 0 where
  pub id : ℕ
  pub t : ℕ
  pub v : ℕ

-- The loop of `binary.AppendUvarint`; a uint64 has 10 groups at most.
unfoldable pub put_groups : ℕ → ℕ → Bytes
put_groups zero x = x ∷ []
put_groups (suc more) x =
    let rest = put_groups more (x / 128) in if ltb x 128 then x ∷ [] else (x % 128 + 128) ∷ rest

unfoldable pub put_uvarint : ℕ → Bytes
unfolding put_groups
put_uvarint x = put_groups 9 x

-- A group below the groups that follow it.
abbrev pub above : ℕ → Option (ℕ × Bytes) → Option (ℕ × Bytes)
above b none = none
above b (some (x, rest)) = some (b % 128 + 128 * x, rest)

-- The loop of `binary.Uvarint`, with the groups that may follow: the last of ten is 0 or 1.
unfoldable pub get_groups : ℕ → Bytes → Option (ℕ × Bytes)
get_groups more [] = none
get_groups zero (b ∷ bs) = if ltb b 2 then some (b, bs) else none
get_groups (suc more) (b ∷ bs) =
    let rest = get_groups more bs in if ltb b 128 then some (b, bs) else above b rest

unfoldable pub get_uvarint : Bytes → Option (ℕ × Bytes)
unfolding get_groups
get_uvarint bs = get_groups 9 bs

-- `binary.LittleEndian`, by the number of bytes.
unfoldable pub put_le : ℕ → ℕ → Bytes
put_le zero x = []
put_le (suc w) x = (x % 256) ∷ put_le w (x / 256)

unfoldable pub get_le : Bytes → ℕ
get_le [] = 0
get_le (b ∷ bs) = b + 256 * get_le bs

-- `appendString`, behind the buffer
unfoldable pub put_string : Bytes → Bytes
unfolding put_uvarint
put_string s = put_uvarint (length s) ++ s

unfoldable pub put_tags : List Tag → Bytes
unfolding put_string
put_tags [] = []
put_tags (t ∷ ts) = put_string t.key ++ (put_string t.value ++ put_tags ts)

-- `encodeSeries`
unfoldable pub encode_series : ℕ → SeriesRef → Bytes
unfolding put_uvarint put_string put_tags
encode_series id ref =
    put_uvarint id
    ++ (put_string ref.metric ++ (put_uvarint (length ref.tags) ++ put_tags ref.tags))

unfoldable pub put_samples : List Sample → Bytes
unfolding put_uvarint put_le
put_samples [] = []
put_samples (s ∷ ss) =
    put_uvarint s.id ++ (put_uvarint (zig_zag s.t) ++ (put_le 8 s.v ++ put_samples ss))

-- `encodeSamples`
unfoldable pub encode_samples : List Sample → Bytes
unfolding put_uvarint put_samples
encode_samples ss = put_uvarint (length ss) ++ put_samples ss

pub data DecodeError : Type 0 where
  truncated_uvarint truncated_varint truncated_float long_string too_many : DecodeError

-- A decoder reads on from its bytes, or has met its first error.
pub data Decoder : Type 0 where
  reading : Bytes → Decoder
  stopped : DecodeError → Decoder

pub data Decoded {ℓ} (A : Type ℓ) : Type ℓ where
  ok : A → Decoded A
  bad : DecodeError → Decoded A

-- What follows a read of encoding/binary.
abbrev read_on : DecodeError → Option (ℕ × Bytes) → ℕ × Decoder
read_on e none = (0, stopped e)
read_on e (some (x, rest)) = (x, reading rest)

-- `decoder.uvarint`
unfoldable pub uvarint : Decoder → ℕ × Decoder
unfolding get_uvarint
uvarint (stopped e) = (0, stopped e)
uvarint (reading b) = read_on truncated_uvarint (get_uvarint b)

abbrev signed : ℕ × Decoder → ℕ × Decoder
signed (x, stopped e) = (0, stopped e)
signed (x, reading b) = (undo_zig_zag x, reading b)

-- `decoder.varint`
unfoldable pub varint : Decoder → ℕ × Decoder
unfolding get_uvarint
varint (stopped e) = (0, stopped e)
varint (reading b) = signed (read_on truncated_varint (get_uvarint b))

-- `decoder.uint64`
unfoldable pub uint64 : Decoder → ℕ × Decoder
unfolding get_le
uint64 (stopped e) = (0, stopped e)
uint64 (reading b) =
    if ltb (length b) 8
    then (0, stopped truncated_float)
    else (get_le (take 8 b), reading (drop 8 b))

-- The bytes of a string, behind its length.
unfoldable pub string_of : ℕ × Decoder → Bytes × Decoder
string_of (n, stopped e) = ([], stopped e)
string_of (n, reading b) =
    if ltb (length b) n then ([], stopped long_string) else (take n b, reading (drop n b))

-- `decoder.str`
unfoldable pub str : Decoder → Bytes × Decoder
unfolding uvarint string_of
str d = string_of (uvarint d)

unfoldable pub read_tags : ℕ → Decoder → List Tag × Decoder
unfolding str
read_tags zero d = ([], d)
read_tags (suc n) d =
    let k = str d in
    let v = str k.1 in
    let rest = read_tags n v.1 in (record { key = k.0; value = v.0 } ∷ rest.0, rest.1)

-- The end of a decoding: its first error, or what it gives.
abbrev pub unless_stopped {ℓ} : {A : Type ℓ} → A → Decoder → Decoded A
unless_stopped a (stopped e) = bad e
unless_stopped a (reading b) = ok a

-- The tags of a series, behind their number.
unfoldable pub series_of : ℕ → ℕ → Bytes → ℕ × Decoder → Decoded (ℕ × SeriesRef)
unfolding read_tags
series_of size id metric (n, stopped e) = bad e
series_of size id metric (n, reading b) =
    let ts = read_tags n (reading b) in
    if ltb (size / 2) n
    then bad too_many
    else unless_stopped (id, record { metric = metric; tags = ts.0 }) ts.1

-- `decodeSeries`
unfoldable pub decode_series : Bytes → Decoded (ℕ × SeriesRef)
unfolding uvarint str series_of
decode_series b =
    let id = uvarint (reading b) in
    let metric = str id.1 in series_of (length b) id.0 metric.0 (uvarint metric.1)

abbrev pub onto {ℓ} : {A : Type ℓ} → A → Decoded (List A) → Decoded (List A)
onto a (bad e) = bad e
onto a (ok xs) = ok (a ∷ xs)

abbrev pub if_reading : Decoder → Decoded (List Sample) → Decoded (List Sample)
if_reading (stopped e) rest = bad e
if_reading (reading b) rest = rest

-- The loop of `decodeSamples`.
unfoldable pub read_samples : ℕ → Decoder → Decoded (List Sample)
unfolding uvarint varint uint64
read_samples zero d = unless_stopped [] d
read_samples (suc n) d =
    let id = uvarint d in
    let t = varint id.1 in
    let v = uint64 t.1 in
    if_reading v.1 (onto (record { id = id.0; t = t.0; v = v.0 }) (read_samples n v.1))

unfoldable pub samples_of : ℕ → ℕ × Decoder → Decoded (List Sample)
unfolding read_samples
samples_of size (n, stopped e) = bad e
samples_of size (n, reading b) =
    let rest = read_samples n (reading b) in if ltb (size / 3 + 1) n then bad too_many else rest

-- `decodeSamples`
unfoldable pub decode_samples : Bytes → Decoded (List Sample)
unfolding uvarint samples_of
decode_samples b = samples_of (length b) (uvarint (reading b))

-- A sample is still in the head, its time a signed one.
unfoldable pub any_live : ℕ → List Sample → Bool
any_live min_valid [] = false
any_live min_valid (s ∷ ss) =
    let rest = any_live min_valid ss in if signed_lt s.t min_valid then rest else true

abbrev pub judge : ℕ → Decoded (List Sample) → Bool
judge min_valid (bad e) = true
judge min_valid (ok ss) = any_live min_valid ss

-- `keepForCheckpoint`
unfoldable pub keep_for_checkpoint : ℕ → Record → Bool
unfolding decode_samples any_live
keep_for_checkpoint min_valid r =
    if r.kind == record_series
    then true
    else if r.kind == record_samples
    then judge min_valid (decode_samples r.payload)
    else false
