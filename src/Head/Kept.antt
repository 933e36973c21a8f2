-- ===== src/Head/Kept.antt =====
-- What a checkpoint of the log keeps of the head.
use ozymandias.Base.{
  ℕ, ◌^◌, ◌<◌, ◌≤◌, ◌≡◌, ◌↔◌, ◌≢◌, inl, inr, refl, sym, ap, ◌∙◌, Bool, true, false, some, List, [],
  ◌∷◌, ◌++◌, length, All, InList, if◌then◌else◌, Bool-cases,
}
use ozymandias.Base.Bytes.{Bytes}
use ozymandias.Base.Word.{signed_lt}
use ozymandias.Head.{
  Sample, SeriesRef, record_series, record_samples, encode_series, encode_samples, decode_samples,
  any_live, judge, keep_for_checkpoint,
}
use ozymandias.Head.Records.{IsSample, decode_samples-encode_samples}
use ozymandias.Wal.Frame.{Record, frames}
use ozymandias.Wal.Append.{AllStored, stored_of}
use ozymandias.Wal.Recovery.{dir_of}
use ozymandias.Wal.Files.{ok, truncate}
use ozymandias.Wal.Checkpoint.{kept, RisesTo, truncate-keeps}

-- Some sample of a batch is not before a time.
abbrev pub HasLive : ℕ → List Sample → Type 0
HasLive min_valid ss = (s : Sample) × InList s ss × (signed_lt s.t min_valid ≡ false)

any_live-HasLive :
    (min_valid : ℕ) (ss : List Sample) → any_live min_valid ss ≡ true → HasLive min_valid ss
unfolding any_live
any_live-HasLive min_valid [] h = absurd (cc)
any_live-HasLive min_valid (s ∷ ss) h = elim (Bool-cases (signed_lt s.t min_valid)) [
  | inr live ↦ (s, inl refl, live)
  | inl dead ↦
      let later : any_live min_valid ss ≡ true =
        ap (λ b. if b then any_live min_valid ss else true) (sym dead) ∙ h in
      let (t, i, e) = any_live-HasLive min_valid ss later in (t, inr i, e)
]

HasLive-any_live :
    (min_valid : ℕ) (ss : List Sample) → HasLive min_valid ss → any_live min_valid ss ≡ true
unfolding any_live
HasLive-any_live min_valid [] (s, i, e) = elim i [ ]
HasLive-any_live min_valid (t ∷ ss) (s, inl same, e) =
    let live : signed_lt t.t min_valid ≡ false =
      ap (λ (r : Sample). signed_lt r.t min_valid) same ∙ e in
    rw live refl
HasLive-any_live min_valid (t ∷ ss) (s, inr i, e) =
    let later = HasLive-any_live min_valid ss (s, i, e) in
    elim (Bool-cases (signed_lt t.t min_valid)) [
      | inl dead ↦ rw (dead, later) refl
      | inr live ↦ rw live refl
    ]

-- The records of a head.
abbrev pub series_record : ℕ → SeriesRef → Record
series_record id ref = record { kind = record_series; payload = encode_series id ref }

abbrev pub samples_record : List Sample → Record
samples_record ss = record { kind = record_samples; payload = encode_samples ss }

-- A checkpoint keeps every series, and of the batches exactly those with a sample that is not before
-- the first time that the head takes.
pub keep_for_checkpoint_iff :
    (min_valid id : ℕ) (ref : SeriesRef) (ss : List Sample)
    → All IsSample ss
    → length ss < 2 ^ 64
    → (keep_for_checkpoint min_valid (series_record id ref) ≡ true)
      × ((keep_for_checkpoint min_valid (samples_record ss) ≡ true) ↔ HasLive min_valid ss)
unfolding keep_for_checkpoint
keep_for_checkpoint_iff min_valid id ref ss h n =
    let judged : judge min_valid (decode_samples (encode_samples ss)) ≡ any_live min_valid ss =
      ap (judge min_valid) (decode_samples-encode_samples ss h n) in
    (
      refl,
      (
        λ e. any_live-HasLive min_valid ss (sym judged ∙ e),
        λ l. judged ∙ HasLive-any_live min_valid ss l,
      ),
    )

InList-kept :
    (keep : Record → Bool) (r : Record) (rs : List Record)
    → keep r ≡ true
    → InList r rs
    → InList r (kept keep rs)
InList-kept keep r [] k i = elim i [ ]
InList-kept keep r (q ∷ rs) k (inl same) =
    let passes : keep q ≡ true = ap keep same ∙ k in rw passes (inl same)
InList-kept keep r (q ∷ rs) k (inr i) =
    let later = InList-kept keep r rs k i in
    elim (Bool-cases (keep q)) [ inl passes ↦ rw passes (inr later) | inr fails ↦ rw fails later ]

module _ (crc : Bytes → ℕ) (crc_lt : (bs : Bytes) → crc bs < 2 ^ 32) where
  -- No live sample is lost when the log is truncated: a batch in what Truncate removes, with a sample
  -- that is not before the first time that the head takes, is in the checkpoint that replaces it. The log
  -- is of whole records in numbered files, some of them below `before`, the checkpoints rise up to it, and
  -- what is copied fits a file; samples are words of 64 bits.
  pub truncate-HasLive :
      (min_valid before : ℕ) (cs old mid : List (ℕ × List Record)) (n : ℕ) (bs : Bytes)
      (ss : List Sample)
      → AllStored cs
      → AllStored old
      → RisesTo crc before cs
      → All (λ s. s.0 < before) old
      → All (λ s. before ≤ s.0) mid
      → before ≤ n
      → old ≢ []
      → length (frames crc (stored_of cs ++ stored_of old)) ≤ 2 ^ 62
      → All IsSample ss
      → length ss < 2 ^ 64
      → HasLive min_valid ss
      → InList (samples_record ss) (stored_of cs ++ stored_of old)
      → (rs : List Record) × (truncate crc
            (dir_of crc cs (old ++ mid) n bs)
            before
            (some (keep_for_checkpoint min_valid))
          ≡ ok (dir_of crc ((before, rs) ∷ []) mid n bs))
        × InList (samples_record ss) rs
  truncate-HasLive min_valid before cs old mid n bs ss hc ho rises small large last some_old room h
        k live i =
      let keep = keep_for_checkpoint min_valid in
      let all = stored_of cs ++ stored_of old in
      let passes =
        (keep_for_checkpoint_iff min_valid 0 (record { metric = []; tags = [] }) ss h k).1.1 live in
      (
        kept keep all,
        truncate-keeps crc crc_lt keep before cs old mid n bs hc ho rises small large last some_old
            room,
        InList-kept keep (samples_record ss) all passes i,
      )
