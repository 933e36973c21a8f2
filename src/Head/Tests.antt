-- ===== src/Head/Tests.antt =====
-- A series with a tag, and a batch of two samples, the second of a time before 1970.
use ozymandias.Base.{
  ℕ, ◌+◌, ◌-◌, ◌%◌, ◌≤◌, ◌++◌, some, InList, inl, ◌^◌, ◌<◌, ◌≡◌, refl, List, [], ◌∷◌, length,
  length-append, All, arith,
}
use ozymandias.Head.{
  SeriesRef, Sample, encode_series, decode_series, encode_samples, decode_samples, ok, bad,
  truncated_float, keep_for_checkpoint, put_samples,
}
use ozymandias.Head.Records.{IsSample, decode_samples-encode_samples, decode_series-encode_series}
use ozymandias.Head.Kept.{samples_record, truncate-HasLive}
use ozymandias.Base.Bytes.{Bytes}
use ozymandias.Chunk.Stream.{zig_zag}
use ozymandias.Wal.Frame.{Record, frame, frames, length-frame}
use ozymandias.Wal.Recovery.{dir_of}
use ozymandias.Wal.Files
use ozymandias.Wal.Files.{truncate}

abbrev cpu : SeriesRef
cpu = record {
  metric = 99 ∷ 112 ∷ 117 ∷ [];
  tags = record { key = 104 ∷ []; value = 97 ∷ 98 ∷ [] } ∷ [];
}

abbrev batch : List Sample
batch = record { id = 300; t = 1000; v = 0 } ∷ record { id = 2; t = 2 ^ 64 - 5; v = 1 } ∷ []

batch-IsSample : All IsSample batch
batch-IsSample = (
  record { id = omega arith; t = omega arith; v = omega arith },
  (record { id = omega arith; t = omega arith; v = omega arith }, tt),
)

-- A count of one, an id, a time, and no value.
cut_short : decode_samples (1 ∷ 7 ∷ 2 ∷ 0 ∷ []) ≡ bad truncated_float
unfolding decode_samples
cut_short = refl

decode_samples-encode_samples_example : decode_samples (encode_samples batch) ≡ ok batch
decode_samples-encode_samples_example =
    decode_samples-encode_samples batch batch-IsSample (omega arith)

decode_series-encode_series_example : decode_series (encode_series 300 cpu) ≡ ok (300, cpu)
decode_series-encode_series_example =
    decode_series-encode_series 300 cpu (omega arith) (omega arith) (omega arith)
      (record { key = omega arith; value = omega arith }, tt)

sum_of : Bytes → ℕ
sum_of [] = 0
sum_of (b ∷ bs) = (b + sum_of bs) % 2 ^ 32

sum_of-lt : (bs : Bytes) → sum_of bs < 2 ^ 32
unfolding sum_of
sum_of-lt [] = omega arith
sum_of-lt (b ∷ bs) = omega arith

-- The log has the batch in its first segment.
abbrev sealed : List (ℕ × List Record)
sealed = (0, samples_record batch ∷ []) ∷ []

batch_fits : length (encode_samples batch) ≤ 30
unfolding encode_samples put_samples zig_zag
batch_fits = omega arith

truncate-HasLive_example :
    (rs : List Record) × (truncate sum_of
        (dir_of sum_of [] (sealed ++ []) 1 [])
        1
        (some (keep_for_checkpoint 500))
      ≡ Files.ok (dir_of sum_of ((1, rs) ∷ []) [] 1 []))
    × InList (samples_record batch) rs
truncate-HasLive_example =
    truncate-HasLive sum_of sum_of-lt 500 1 [] sealed [] 1 [] batch tt
      (
        (record { set = omega arith; byte = omega arith; within = omega (arith, batch_fits) }, tt),
        tt,
      )
      tt (omega arith, tt) tt (omega arith) (λ e. cc)
      (unfold frames in
        omega (
          arith,
          batch_fits,
          length-frame sum_of (samples_record batch),
          length-append (frame sum_of (samples_record batch)) [],
        ))
      batch-IsSample (omega arith) (record { id = 300; t = 1000; v = 0 }, inl refl, refl) (inl refl)
