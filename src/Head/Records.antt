-- ===== src/Head/Records.antt =====
-- What is encoded is decoded.
use ozymandias.Base.{
  ℕ, ◌+◌, ◌*◌, ◌/◌, ◌^◌, ◌<◌, ◌≤◌, ◌≡◌, refl, ap, false, List, [], ◌∷◌, ◌++◌, length, All, ltb,
  arith, length-append, take-append, drop-append,
}
use ozymandias.Base.Bytes.{Bytes}
use ozymandias.Base.Word.{IsU64}
use ozymandias.Chunk.Stream.{zig_zag}
use ozymandias.Chunk.Stream.Varint.{zig_zag-lt, undo_zig_zag-zig_zag}
use ozymandias.Head.{
  Tag, SeriesRef, Sample, put_uvarint, put_le, put_string, put_tags, encode_series, put_samples,
  encode_samples, reading, ok, varint, uint64, read_tags, series_of, decode_series, read_samples,
  samples_of, decode_samples,
}
use ozymandias.Head.Varint.{
  get_uvarint-put_uvarint, length-put_le, get_le-put_le, uvarint-put_uvarint, str-put_string,
  length-put_string,
}

-- Words of 64 bits, which all fields of a sample are.
pub record IsSample (s : Sample) : Type 0 where
  pub id : s.id < 2 ^ 64
  pub t : IsU64 s.t
  pub v : s.v < 2 ^ 64

-- Strings whose lengths are words.
pub record IsTag (t : Tag) : Type 0 where
  pub key : length t.key < 2 ^ 64
  pub value : length t.value < 2 ^ 64

varint-zig_zag :
    (v : ℕ) (rest : Bytes)
    → IsU64 v
    → varint (reading (put_uvarint (zig_zag v) ++ rest)) ≡ (v, reading rest)
unfolding varint
varint-zig_zag v rest h =
    rw (get_uvarint-put_uvarint (zig_zag v) rest (zig_zag-lt v h))
      (ap (λ u. (u, reading rest)) (undo_zig_zag-zig_zag v h))

uint64-put_le :
    (x : ℕ) (rest : Bytes) → x < 2 ^ 64 → uint64 (reading (put_le 8 x ++ rest)) ≡ (x, reading rest)
unfolding uint64
uint64-put_le x rest h =
    let len = length-put_le 8 x in
    let long : ltb (length (put_le 8 x ++ rest)) 8 ≡ false =
      ground (arith, len, length-append (put_le 8 x) rest) in
    rw
      (
        long,
        take-append (put_le 8 x) rest 8 len,
        drop-append (put_le 8 x) rest 8 len,
        get_le-put_le 8 x (omega (arith, h)),
      )
      refl

read_samples-put_samples :
    (ss : List Sample)
    → All IsSample ss
    → read_samples (length ss) (reading (put_samples ss)) ≡ ok ss
unfolding read_samples put_samples
read_samples-put_samples [] h = refl
read_samples-put_samples (s ∷ ss) (a, h) =
    let id =
      uvarint-put_uvarint s.id (put_uvarint (zig_zag s.t) ++ (put_le 8 s.v ++ put_samples ss))
        a.id in
    let t = varint-zig_zag s.t (put_le 8 s.v ++ put_samples ss) a.t in
    let v = uint64-put_le s.v (put_samples ss) a.v in
    rw (id, t, v, read_samples-put_samples ss h) refl

length-put_samples : (ss : List Sample) → length ss * 3 ≤ length (put_samples ss)
unfolding put_samples
length-put_samples [] = omega arith
length-put_samples (s ∷ ss) =
    let two = put_le 8 s.v ++ put_samples ss in
    omega (
      arith,
      length-put_samples ss,
      length-put_le 8 s.v,
      length-append (put_le 8 s.v) (put_samples ss),
      length-append (put_uvarint (zig_zag s.t)) two,
      length-append (put_uvarint s.id) (put_uvarint (zig_zag s.t) ++ two),
    )

-- A batch of samples is decoded to the samples that were encoded.
pub decode_samples-encode_samples :
    (ss : List Sample)
    → All IsSample ss
    → length ss < 2 ^ 64
    → decode_samples (encode_samples ss) ≡ ok ss
unfolding decode_samples encode_samples samples_of
decode_samples-encode_samples ss h n =
    let fits : ltb (length (put_uvarint (length ss) ++ put_samples ss) / 3 + 1) (length ss)
        ≡ false =
      ground
        (arith, length-put_samples ss, length-append (put_uvarint (length ss)) (put_samples ss)) in
    rw (uvarint-put_uvarint (length ss) (put_samples ss) n, fits, read_samples-put_samples ss h)
      refl

read_tags-put_tags :
    (ts : List Tag)
    → All IsTag ts
    → read_tags (length ts) (reading (put_tags ts)) ≡ (ts, reading [])
unfolding read_tags put_tags
read_tags-put_tags [] h = refl
read_tags-put_tags (t ∷ ts) (a, h) =
    let k = str-put_string t.key (put_string t.value ++ put_tags ts) a.key in
    let v = str-put_string t.value (put_tags ts) a.value in rw (k, v, read_tags-put_tags ts h) refl

length-put_tags : (ts : List Tag) → length ts * 2 ≤ length (put_tags ts)
unfolding put_tags
length-put_tags [] = omega arith
length-put_tags (t ∷ ts) = omega (
  arith,
  length-put_tags ts,
  length-put_string t.key,
  length-put_string t.value,
  length-append (put_string t.value) (put_tags ts),
  length-append (put_string t.key) (put_string t.value ++ put_tags ts),
)

length-encode_series :
    (id : ℕ) (ref : SeriesRef) → length ref.tags * 2 ≤ length (encode_series id ref)
unfolding encode_series
length-encode_series id ref =
    let n = length ref.tags in
    let behind_metric = put_uvarint n ++ put_tags ref.tags in
    omega (
      arith,
      length-put_tags ref.tags,
      length-append (put_uvarint n) (put_tags ref.tags),
      length-append (put_string ref.metric) behind_metric,
      length-append (put_uvarint id) (put_string ref.metric ++ behind_metric),
    )

not_too_many : (size n : ℕ) → n * 2 ≤ size → ltb (size / 2) n ≡ false
not_too_many size n h = ground (arith, h)

series_of-put_tags :
    (size id : ℕ) (ref : SeriesRef)
    → length ref.tags * 2 ≤ size
    → All IsTag ref.tags
    → series_of size id ref.metric (length ref.tags, reading (put_tags ref.tags)) ≡ ok (id, ref)
unfolding series_of
series_of-put_tags size id ref h k =
    rw (not_too_many size (length ref.tags) h, read_tags-put_tags ref.tags k) refl

-- A series and its id are decoded as they were encoded.
pub decode_series-encode_series :
    (id : ℕ) (ref : SeriesRef)
    → id < 2 ^ 64
    → length ref.metric < 2 ^ 64
    → length ref.tags < 2 ^ 64
    → All IsTag ref.tags
    → decode_series (encode_series id ref) ≡ ok (id, ref)
unfolding decode_series encode_series
decode_series-encode_series id ref hid hm hn h =
    let n = length ref.tags in
    let behind_metric = put_uvarint n ++ put_tags ref.tags in
    let behind_id = put_string ref.metric ++ behind_metric in
    rw
      (
        uvarint-put_uvarint id behind_id hid,
        str-put_string ref.metric behind_metric hm,
        uvarint-put_uvarint n (put_tags ref.tags) hn,
      )
      (series_of-put_tags (length (put_uvarint id ++ behind_id)) id ref
        (length-encode_series id ref) h)
