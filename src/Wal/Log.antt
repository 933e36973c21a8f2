-- ===== src/Wal/Log.antt =====
-- The appending of internal/tsdb/wal/wal.go: `Log` with its rollover and its repair of a write that
-- fails half way, `Sync` and `Close`. What the operating system answers to a call is an argument.
use ozymandias.Base.{
  ℕ, ◌+◌, Bool, true, false, ◌&&◌, Option, none, some, List, [], ◌∷◌, ◌++◌, length, take,
  if◌then◌else◌, ltb, ◌==◌,
}
use ozymandias.Base.Int.{ℤ, pos, pos_part, leb_ℤ}
use ozymandias.Base.Bytes.{Bytes}
use ozymandias.Wal.Frame.{header_size, max_record_size, default_segment_size, Record, header}

-- `sealed` are the segments before the one that is written, with what they hold, `content` what the
-- open file holds, and `usable` whether its handle is open: a rollover that fails half way leaves a
-- closed one. `broken` is set with the error that every later call returns.
pub record Wal : Type 0 where
  pub sealed : List (ℕ × Bytes)
  pub segment : ℕ
  pub content : Bytes
  pub size : ℕ
  pub segment_size : ℕ
  pub usable : Bool
  pub closed : Bool
  pub broken : Bool

-- The newest of the segments that `Open` finds, and those before it.
abbrev pub newest : List (ℕ × Bytes) → List (ℕ × Bytes) × ℕ × Bytes
newest [] = ([], 0, [])
newest (s ∷ []) = ([], s.0, s.1)
newest (s ∷ t ∷ ss) = let rest = newest (t ∷ ss) in (s ∷ rest.0, rest.1, rest.2)

-- `Open`; a size that is not positive stands for the default.
unfoldable pub open_log : ℤ → List (ℕ × Bytes) → Wal
open_log segment_size segments =
    let n = newest segments in
    record {
      sealed = n.0;
      segment = n.1;
      content = n.2;
      size = length n.2;
      segment_size =
          if leb_ℤ segment_size (pos 0) then default_segment_size else pos_part segment_size;
      usable = true;
      closed = false;
      broken = false;
    }

-- How a rollover ends: `Sync`, `Close` or the opening of the next segment may fail. A segment that is
-- made and cannot be opened is empty, and is left out.
pub data Rolled : Type 0 where
  rolled not_synced not_closed not_opened : Rolled

-- What the calls of one `Log` do: the i-th write puts all its bytes, or a number of them and fails.
pub record Os : Type 0 where
  pub roll : Rolled
  pub write : ℕ → Option ℕ
  pub truncates : Bool
  pub seeks : Bool

pub data LogError : Type 0 where
  log_closed log_broken reserved_type too_large roll_failed write_failed undo_failed : LogError

abbrev pub Outcome : Type 0
Outcome = Wal × Option LogError

-- The loop that checks the records and adds up their sizes.
unfoldable pub total_of : List Record → ℕ
total_of [] = 0
total_of (r ∷ rs) = header_size + length r.payload + total_of rs

unfoldable pub refusal : List Record → Option LogError
refusal [] = none
refusal (r ∷ rs) =
    if r.kind == 0
    then some reserved_type
    else if ltb max_record_size (length r.payload)
    then some too_large
    else refusal rs

-- `File.Write`, and whether it puts all.
unfoldable pub write : Wal → Os → ℕ → Bytes → Wal × Bool
write w os i bs =
    if w.usable
    then elim (os.write i) [
      | none ↦ (record w { content = w.content ++ bs }, true)
      | some k ↦ (record w { content = w.content ++ take k bs }, false)
    ]
    else (w, false)

-- `undoPartial`
unfoldable pub undo_partial : Wal → Os → Outcome
undo_partial w os =
    if w.usable && os.truncates
    then if os.seeks
      then (record w { content = take w.size w.content }, some write_failed)
      else (record w { content = take w.size w.content; broken = true }, some undo_failed)
    else (record w { broken = true }, some undo_failed)

-- `roll`, on an open file.
unfoldable pub roll_as : Rolled → Wal → Outcome
roll_as not_synced w = (w, some roll_failed)
roll_as not_closed w = (record w { usable = false }, some roll_failed)
roll_as not_opened w = (record w { usable = false }, some roll_failed)
roll_as rolled w = (
  record w {
    sealed = w.sealed ++ (w.segment, w.content) ∷ [];
    segment = w.segment + 1;
    content = [];
    size = 0;
  },
  none,
)

-- `roll`
unfoldable pub roll : Wal → Os → Outcome
unfolding roll_as
roll w os = if w.usable then roll_as os.roll w else (w, some roll_failed)

-- What follows a write: a failed one is undone.
abbrev pub or_undo : Os → Wal × Bool → (Wal → Outcome) → Outcome
or_undo os (w, false) rest = undo_partial w os
or_undo os (w, true) rest = rest w

-- What follows a rollover that succeeds.
abbrev pub or_fail : Outcome → (Wal → Outcome) → Outcome
or_fail (w, some e) rest = (w, some e)
or_fail (w, none) rest = rest w

module _ (crc : Bytes → ℕ) where
  -- The loop of `Log` over the records, from the `i`-th write.
  unfoldable pub write_records : Wal → Os → ℕ → List Record → Outcome
  unfolding write undo_partial
  write_records w os i [] = (w, none)
  write_records w os i (r ∷ rs) = or_undo os (write w os i (header crc r)) (λ w'.
      or_undo os (write w' os (i + 1) r.payload) (λ w''.
        write_records (record w'' { size = w''.size + (header_size + length r.payload) }) os (i + 2)
          rs))

  -- `Log`, behind its checks: the rollover, and the records.
  unfoldable pub log_checked : Wal → Os → List Record → Outcome
  unfolding roll write_records
  log_checked w os rs =
      if ltb 0 w.size && ltb w.segment_size (w.size + total_of rs)
      then or_fail (roll w os) (λ w'. write_records w' os 0 rs)
      else write_records w os 0 rs

  -- `Log`
  unfoldable pub log : Wal → Os → List Record → Outcome
  unfolding log_checked
  log w os [] = (w, none)
  log w os (r ∷ rs) =
      if w.closed
      then (w, some log_closed)
      else if w.broken
      then (w, some log_broken)
      else elim (refusal (r ∷ rs)) [ some e ↦ (w, some e) | none ↦ log_checked w os (r ∷ rs) ]

-- `Sync`, by what the operating system answers.
unfoldable pub sync : Wal → Bool → Option LogError
sync w synced =
    if w.closed
    then some log_closed
    else if w.broken
    then some log_broken
    else if w.usable && synced
    then none
    else some write_failed

-- `Close`
unfoldable pub close : Wal → Wal
close w = if w.closed then w else record w { closed = true; usable = false }
