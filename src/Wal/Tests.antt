-- ===== src/Wal/Tests.antt =====
-- A log of three small records, with a checksum that is easy to compute.
use ozymandias.Base.{
  ℕ, ◌+◌, ◌*◌, ◌%◌, ◌^◌, ◌<◌, ◌≡◌, refl, Bool, true, false, not, none, some, [], ◌∷◌, ◌++◌, length,
  length-append, if◌then◌else◌, take, ◌==◌, arith, inl, inr,
}
use ozymandias.Base.Int.{pos}
use ozymandias.Base.Bytes.{Bytes}
use ozymandias.Base.Wire.{put_be}
use ozymandias.Wal.Frame.{Record, header, frame, frames, length-frame, length-header}
use ozymandias.Wal.Reader.{crc_mismatch, segment, checkpoint, Position, Reader, replay}
use ozymandias.Wal.Replay.{position, IsTorn}
use ozymandias.Wal.Drain.{Replays, layout, replay-layout}
use ozymandias.Wal.Log.{Wal, Os, rolled, log, refusal, open_log}
use ozymandias.Wal.Append.{IsLog}
use ozymandias.Wal.Recovery.{dir_of, repair-cuts, log-replayed}
use ozymandias.Wal.Damage.{IsDamage, altered, report, damage_reported}
use ozymandias.Wal.Checkpoint.{kept, truncate-keeps}
use ozymandias.Wal.Files.{ok, files_of, repair, truncate}

sum_of : Bytes → ℕ
sum_of [] = 7
sum_of (b ∷ bs) = (b + 31 * sum_of bs) % 2 ^ 32

sum_of-lt : (bs : Bytes) → sum_of bs < 2 ^ 32
unfolding sum_of
sum_of-lt [] = omega arith
sum_of-lt (b ∷ bs) = omega arith

abbrev series : Record
series = record { kind = 1; payload = 10 ∷ 20 ∷ [] }

abbrev samples : Record
samples = record { kind = 2; payload = 30 ∷ [] }

abbrev tombstone : Record
tombstone = record { kind = 3; payload = [] }

abbrev torn_bytes : Bytes
torn_bytes = take 4 (frame sum_of samples)

torn_bytes-IsTorn : IsTorn sum_of torn_bytes
torn_bytes-IsTorn = record {
  whole = samples;
  kept = 4;
  accepted = omega arith;
  cut = omega (arith, length-frame sum_of samples);
  same = refl;
}

is_series : Record → Bool
is_series r = r.kind == 1

-- The first segment, empty, with a limit that the records below pass.
abbrev empty_log : Wal
unfolding open_log
empty_log = open_log (pos 25) []

empty_log-IsLog : IsLog sum_of (open_log (pos 25) []) [] []
unfolding open_log frames
empty_log-IsLog = record {
  tail = [];
  in_sealed = refl;
  in_content = refl;
  clean = λ e. (refl, refl);
  cut = inl refl;
  stored = tt;
  written = tt;
}

-- The payload of the second record is cut off, and cannot be removed.
abbrev full_disk : Os
full_disk = record {
  roll = rolled;
  write = λ i. if i == 3 then some 0 else none;
  truncates = false;
  seeks = true;
}

broken_log : (log sum_of (open_log (pos 25) []) full_disk (series ∷ samples ∷ [])).0.broken ≡ true
unfolding open_log log refusal
broken_log = refl

log-replayed_example :
    (count : ℕ) × ((at : Position) × Replays sum_of
        (files_of (record {
          checkpoints = [];
          segments =
              (log sum_of (open_log (pos 25) []) full_disk (series ∷ samples ∷ [])).0.sealed
              ++ (
                (log sum_of (open_log (pos 25) []) full_disk (series ∷ samples ∷ [])).0.segment,
                (log sum_of (open_log (pos 25) []) full_disk (series ∷ samples ∷ [])).0.content,
              )
                ∷ [];
        }))
        false
        (take count (series ∷ samples ∷ []))
        at)
    × ((log sum_of (open_log (pos 25) []) full_disk (series ∷ samples ∷ [])).1 ≡ none
        → take count (series ∷ samples ∷ []) ≡ series ∷ samples ∷ [])
log-replayed_example =
    log-replayed sum_of sum_of-lt [] (open_log (pos 25) []) full_disk (series ∷ samples ∷ []) tt
      (omega arith) empty_log-IsLog

replay-layout_example :
    Replays sum_of
      (layout sum_of ((checkpoint 1, series ∷ []) ∷ []) (segment 1) (tombstone ∷ []) torn_bytes)
      false
      (series ∷ tombstone ∷ [])
      (position (segment 1) (length (frames sum_of (tombstone ∷ []))))
replay-layout_example =
    replay-layout sum_of sum_of-lt (segment 1) ((checkpoint 1, series ∷ []) ∷ []) (tombstone ∷ [])
      torn_bytes (omega arith) (omega arith) (inr (refl, torn_bytes-IsTorn))

repair-cuts_example :
    (repair sum_of
        (dir_of sum_of [] ((0, series ∷ []) ∷ []) 1 (frames sum_of (tombstone ∷ []) ++ torn_bytes))
      ≡ ok (
        dir_of sum_of [] ((0, series ∷ []) ∷ []) 1 (frames sum_of (tombstone ∷ [])),
        not (length torn_bytes == 0),
      ))
    × Replays sum_of
        (files_of (dir_of sum_of [] ((0, series ∷ []) ∷ []) 1 (frames sum_of (tombstone ∷ []))))
        false
        (series ∷ tombstone ∷ [])
        (position (segment 1) (length (frames sum_of (tombstone ∷ []))))
repair-cuts_example =
    repair-cuts sum_of sum_of-lt [] ((0, series ∷ []) ∷ []) 1 (tombstone ∷ []) torn_bytes tt
      (omega arith) (omega arith) (omega arith) (inr (refl, torn_bytes-IsTorn))

-- A flipped bit in the first of two records.
flipped-IsDamage :
    IsDamage sum_of sum_of-lt
      (header sum_of series ++ ((11 ∷ 20 ∷ []) ++ frame sum_of samples))
      (crc_mismatch (sum_of (11 ∷ 20 ∷ [])) (sum_of series.payload))
      11
unfolding sum_of
flipped-IsDamage =
    altered series (11 ∷ 20 ∷ []) (frame sum_of samples) (omega arith) refl (omega arith)

damage_reported_example :
    (e : Reader) × (replay sum_of
        ((
          segment 4,
          frames sum_of (tombstone ∷ [])
              ++ (header sum_of series ++ ((11 ∷ 20 ∷ []) ++ frame sum_of samples)),
        )
          ∷ [])
        false
      ≡ some (tombstone ∷ [], e))
    × (e.err
        ≡ some (
            report sum_of sum_of-lt
              (segment 4)
              (length (frames sum_of (tombstone ∷ [])))
              (crc_mismatch (sum_of (11 ∷ 20 ∷ [])) (sum_of series.payload))))
damage_reported_example =
    damage_reported sum_of sum_of-lt [] (segment 4) (tombstone ∷ [])
      (header sum_of series ++ ((11 ∷ 20 ∷ []) ++ frame sum_of samples))
      (crc_mismatch (sum_of (11 ∷ 20 ∷ [])) (sum_of series.payload)) 11 [] tt (omega arith)
      flipped-IsDamage
      (inl (
        omega (
          arith,
          length-header sum_of series,
          length-append (header sum_of series) ((11 ∷ 20 ∷ []) ++ frame sum_of samples),
          length-frame sum_of samples,
        )))

truncate-keeps_example :
    truncate sum_of
      (dir_of sum_of
        ((2, series ∷ []) ∷ [])
        ((2, samples ∷ series ∷ []) ∷ (3, tombstone ∷ []) ∷ [])
        4
        torn_bytes)
      3
      (some is_series)
    ≡ ok (
        dir_of sum_of
          ((3, kept is_series (series ∷ samples ∷ series ∷ [])) ∷ [])
          ((3, tombstone ∷ []) ∷ [])
          4
          torn_bytes)
truncate-keeps_example =
    truncate-keeps sum_of sum_of-lt is_series 3 ((2, series ∷ []) ∷ [])
      ((2, samples ∷ series ∷ []) ∷ []) ((3, tombstone ∷ []) ∷ []) 4 torn_bytes (omega arith)
      (omega arith) (omega arith) (omega arith) (omega arith) (omega arith) (λ e. cc)
      (unfold frames frame header sum_of put_be in omega arith)
