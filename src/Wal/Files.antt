-- ===== src/Wal/Files.antt =====
-- internal/tsdb/wal/truncate.go: the repair of a torn tail, and the removal of old segments behind a
-- checkpoint. Calls of the operating system are taken to succeed here; a checkpoint is published by
-- a rename, so nothing but the temporary file shows that one failed.
use ozymandias.Base.{
  ℕ, ◌^◌, Bool, true, false, not, Option, none, some, List, [], ◌∷◌, ◌++◌, length, take, map,
  if◌then◌else◌, ltb, leb, ◌==◌,
}
use ozymandias.Base.Bytes.{Bytes}
use ozymandias.Wal.Frame.{Record}
use ozymandias.Wal.Reader.{
  FileName, checkpoint, segment, Position, Corrupt, Reader, Dir, as_checkpoint, as_segment, replay,
}
use ozymandias.Wal.Log.{Wal, Os, rolled, LogError, Outcome, log}

-- What stops a call: damage, a file that is not there, a record that cannot be logged, or the bound of
-- the replay.
pub data Failure : Type 0 where
  corrupt : Corrupt → Failure
  not_found : Failure
  unlogged : LogError → Failure
  endless : Failure

pub data Result {ℓ} (A : Type ℓ) : Type ℓ where
  ok : A → Result A
  failed : Failure → Result A

infixl 5 ◌>>=◌
abbrev pub ◌>>=◌ {ℓ κ} : {A : Type ℓ} {B : Type κ} → Result A → (A → Result B) → Result B
ok a >>= f = f a
failed e >>= f = failed e

-- `NewReader`'s list of files.
unfoldable pub files_of : Dir → List (FileName × Bytes)
files_of d = map as_checkpoint d.checkpoints ++ map as_segment d.segments

unfoldable pub find : ℕ → List (ℕ × Bytes) → Option Bytes
find n [] = none
find n ((m, bs) ∷ fs) = if m == n then some bs else find n fs

-- `os.Truncate`, to no more than there is.
unfoldable pub cut_file : ℕ → ℕ → List (ℕ × Bytes) → List (ℕ × Bytes)
cut_file n size [] = []
cut_file n size ((m, bs) ∷ fs) =
    if m == n then (m, take size bs) ∷ fs else (m, bs) ∷ cut_file n size fs

-- The files whose numbers pass a test.
unfoldable pub keep_files : (ℕ → Bool) → List (ℕ × Bytes) → List (ℕ × Bytes)
keep_files p [] = []
keep_files p ((m, bs) ∷ fs) = if p m then (m, bs) ∷ keep_files p fs else keep_files p fs

abbrev pub size_found : Option Bytes → Option ℕ
size_found none = none
size_found (some bs) = some (length bs)

-- The size that `os.Stat` gives.
unfoldable pub size_of : Dir → FileName → Option ℕ
unfolding find
size_of d (checkpoint n) = size_found (find n d.checkpoints)
size_of d (segment n) = size_found (find n d.segments)

-- What follows `os.Stat`.
abbrev pub if_found {ℓ} : {A : Type ℓ} → Option ℕ → (ℕ → Result A) → Result A
if_found none next = failed not_found
if_found (some size) next = next size

unfoldable pub cut_named : Dir → FileName → ℕ → Dir
unfolding cut_file
cut_named d (checkpoint n) size = record d { checkpoints = cut_file n size d.checkpoints }
cut_named d (segment n) size = record d { segments = cut_file n size d.segments }

-- The sweep over the segments after the one at the position.
unfoldable pub sweep : Option ℕ → Dir → Dir
unfolding keep_files
sweep none d = d
sweep (some n) d = record d { segments = keep_files (λ m. leb m n) d.segments }

-- `TruncateTail`, where the position is in a file.
unfoldable pub truncate_at : Dir → FileName → Position → Result Dir
unfolding size_of cut_named sweep
truncate_at d name pos =
    if_found (size_of d name) (λ size.
      ok (sweep pos.number (if size == pos.offset then d else cut_named d name pos.offset)))

abbrev pub if_file {ℓ} : {A : Type ℓ} → Option FileName → A → (FileName → A) → A
if_file none nothing next = nothing
if_file (some name) nothing next = next name

-- `TruncateTail`
unfoldable pub truncate_tail : Dir → Position → Result Dir
unfolding truncate_at
truncate_tail d pos = if_file pos.file (ok d) (λ name. truncate_at d name pos)

-- What `Repair` does at the end of its replay, in the file there.
unfoldable pub repair_at : Dir → FileName → Position → Result (Dir × Bool)
unfolding truncate_tail
repair_at d name pos = if_found (size_of d name) (λ size.
    if size == pos.offset then ok (d, false) else (truncate_tail d pos >>= λ d'. ok (d', true)))

abbrev pub judged : List Record × Reader → Option Corrupt → Result (List Record × Reader)
judged p none = ok p
judged p (some c) = failed (corrupt c)

abbrev pub replayed : Option (List Record × Reader) → Result (List Record × Reader)
replayed none = failed endless
replayed (some p) = judged p p.1.err

-- What follows a `Log` of the copy.
abbrev pub if_logged : Outcome → (Wal → Result Wal) → Result Wal
if_logged (w, some e) next = failed (unlogged e)
if_logged (w, none) next = next w

-- An operating system that does all it is asked.
abbrev pub all_well : Os
all_well = record { roll = rolled; write = λ i. none; truncates = true; seeks = true }

-- The log of one file that a checkpoint is written to.
abbrev pub one_file : Wal
one_file = record {
  sealed = [];
  segment = 0;
  content = [];
  size = 0;
  segment_size = 2 ^ 62;
  usable = true;
  closed = false;
  broken = false;
}

-- `os.Rename` onto a checkpoint's name, in the order of the numbers.
unfoldable pub put_file : ℕ → Bytes → List (ℕ × Bytes) → List (ℕ × Bytes)
put_file n bs [] = (n, bs) ∷ []
put_file n bs ((m, cs) ∷ fs) =
    let rest = put_file n bs fs in
    if m == n then (n, bs) ∷ fs else if ltb n m then (n, bs) ∷ (m, cs) ∷ fs else (m, cs) ∷ rest

module _ (crc : Bytes → ℕ) where
  -- The whole of a replay, or why it fails.
  unfoldable pub read_all : List (FileName × Bytes) → Bool → Result (List Record × Reader)
  read_all files strict = replayed (replay crc files strict)

  -- `Repair`, with whether it cut anything.
  unfoldable pub repair : Dir → Result (Dir × Bool)
  unfolding read_all repair_at
  repair d = read_all (files_of d) false >>= λ p.
      if_file p.1.end.file (ok (d, false)) (λ name. repair_at d name p.1.end)

  -- The loop of `copyKept`.
  unfoldable pub copy_records : (Record → Bool) → Wal → List Record → Result Wal
  copy_records keep w [] = ok w
  copy_records keep w (r ∷ rs) =
      let skipped = copy_records keep w rs in
      if keep r
      then if_logged (log crc w all_well (r ∷ [])) (λ w'. copy_records keep w' rs)
      else skipped

  -- `copyKept`
  unfoldable pub copy_kept : (Record → Bool) → Wal → FileName × Bytes → Result Wal
  unfolding read_all copy_records
  copy_kept keep w file = do p ← read_all (file ∷ []) true; copy_records keep w p.0

  unfoldable pub copy_all : (Record → Bool) → Wal → List (FileName × Bytes) → Result Wal
  unfolding copy_kept
  copy_all keep w [] = ok w
  copy_all keep w (f ∷ fs) = copy_kept keep w f >>= λ w'. copy_all keep w' fs

  -- `writeCheckpoint`
  unfoldable pub write_checkpoint : Dir → List (ℕ × Bytes) → ℕ → (Record → Bool) → Result Dir
  unfolding copy_all put_file keep_files
  write_checkpoint d doomed before keep = do
    let old = keep_files (λ n. leb n before) d.checkpoints
    w ← copy_all keep one_file (map as_checkpoint old ++ map as_segment doomed)
    ok (record d { checkpoints = put_file before w.content d.checkpoints })

  -- The checkpoint, where some records are kept.
  unfoldable pub published : Dir → List (ℕ × Bytes) → ℕ → Option (Record → Bool) → Result Dir
  unfolding write_checkpoint
  published d doomed before none = ok d
  published d doomed before (some keep) = write_checkpoint d doomed before keep

  -- `Truncate`, with the segments before `before`, and then the removals.
  unfoldable pub truncate_doomed : Dir → ℕ → Option (Record → Bool) → List (ℕ × Bytes) → Result Dir
  unfolding published keep_files
  truncate_doomed d before keep [] = ok d
  truncate_doomed d before keep (f ∷ fs) = published d (f ∷ fs) before keep >>= λ d'. ok (record {
    checkpoints = keep_files (λ n. not (ltb n before)) d'.checkpoints;
    segments = keep_files (λ n. not (ltb n before)) d'.segments;
  })

  -- `Truncate`
  unfoldable pub truncate : Dir → ℕ → Option (Record → Bool) → Result Dir
  unfolding truncate_doomed
  truncate d before keep = truncate_doomed d before keep (keep_files (λ n. ltb n before) d.segments)
