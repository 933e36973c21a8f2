-- ===== src/Wal/Checkpoint.antt =====
-- `Truncate` replaces old segments by a checkpoint of the records that are kept.
use ozymandias.Base.{
  ℕ, ◌+◌, ◌<◌, ◌^◌, ◌≤◌, ◌≡◌, ◌≢◌, refl, sym, ap, ◌∙◌, Bool, true, false, not, ◌&&◌, none, some,
  List, [], ◌∷◌, ◌++◌, length, map, arith, inl, inr, All, Bool-cases, ltb, leb, ◌==◌, if◌then◌else◌,
  length-append,
}
use mathlib.Core.Path.{subst}
use mathlib.Core.List.{append_assoc, append-nil, map-append}
use ozymandias.Base.Bytes.{Bytes}
use ozymandias.Wal.Frame.{
  header_size, max_record_size, Record, IsRecord, header, frame, frames, length-header,
}
use ozymandias.Wal.Reader.{FileName, as_checkpoint, as_segment}
use ozymandias.Wal.Drain.{records_of, AllRecords, prefix, replay-layout}
use ozymandias.Wal.Log.{Wal, log, log_checked, write_records, write, refusal, total_of}
use ozymandias.Wal.Append.{AllStored, stored_of, framed, frames-append}
use ozymandias.Wal.Recovery.{dir_of, named, named-AllRecords, records_of-named, read_all-Replays}
use ozymandias.Wal.Files.{
  ok, read_all, all_well, one_file, copy_records, copy_kept, copy_all, keep_files, put_file,
  write_checkpoint, published, truncate_doomed, truncate,
}

-- The records that pass.
abbrev pub kept : (Record → Bool) → List Record → List Record
kept keep [] = []
kept keep (r ∷ rs) = if keep r then r ∷ kept keep rs else kept keep rs

pub kept-append :
    (keep : Record → Bool) (rs qs : List Record)
    → kept keep (rs ++ qs) ≡ kept keep rs ++ kept keep qs
kept-append keep [] qs = refl
kept-append keep (r ∷ rs) qs = elim (Bool-cases (keep r)) [
  | inl e ↦ rw e (ap (λ t. r ∷ t) (kept-append keep rs qs))
  | inr e ↦ rw e (kept-append keep rs qs)
]

pub kept-kept : (keep : Record → Bool) (rs : List Record) → kept keep (kept keep rs) ≡ kept keep rs
kept-kept keep [] = refl
kept-kept keep (r ∷ rs) = elim (Bool-cases (keep r)) [
  | inl e ↦ rw (e, e) (ap (λ t. r ∷ t) (kept-kept keep rs))
  | inr e ↦ rw e (kept-kept keep rs)
]

module _ (crc : Bytes → ℕ) where
  -- The log of a checkpoint's file, with what is written.
  abbrev at : Bytes → Wal
  at bs = record one_file { content = bs; size = length bs }

  log_one :
      (bs : Bytes) (r : Record)
      → IsRecord r
      → length bs + length (frame crc r) ≤ 2 ^ 62
      → log crc (at bs) all_well (r ∷ []) ≡ (at (bs ++ frame crc r), none)
  unfolding log log_checked write_records write frame total_of refusal
  log_one bs r h room =
      let l = length-header crc r in
      let sum = length-append (header crc r) r.payload in
      let set = h.set in
      let within = h.within in
      let stays : (ltb 0 (length bs)
            && ltb (2 ^ 62) (length bs + (header_size + length r.payload + 0)))
          ≡ false =
        ground (arith, room, sum, l) in
      let unset : (r.kind == 0) ≡ false = ground (arith, set) in
      let fits : ltb max_record_size (length r.payload) ≡ false = ground (arith, within) in
      let joined = append_assoc bs (header crc r) r.payload in
      let size : length bs + (header_size + length r.payload)
          ≡ length (bs ++ (header crc r ++ r.payload)) =
        omega (arith, l, sum, length-append bs (header crc r ++ r.payload)) in
      rw (unset, fits)
        (rw stays (λ j. (record (at []) { content = joined j; size = size j }, none)))

  copy_records-kept :
      (keep : Record → Bool) (ls rs : List Record)
      → All IsRecord rs
      → length (frames crc ls) + length (frames crc rs) ≤ 2 ^ 62
      → copy_records crc keep (at (frames crc ls)) rs ≡ ok (at (frames crc (ls ++ kept keep rs)))
  unfolding frames copy_records
  copy_records-kept keep ls [] h room = ap (λ l. ok (at (frames crc l))) (sym (append-nil ls))
  copy_records-kept keep ls (r ∷ rs) (a, h) room =
      let sum = length-append (frame crc r) (frames crc rs) in
      elim (Bool-cases (keep r)) [
        | inr e ↦ rw e (copy_records-kept keep ls rs h (omega (arith, room, sum)))
        | inl e ↦
            let longer : frames crc ls ++ frame crc r ≡ frames crc (ls ++ r ∷ []) =
              ap (λ t. frames crc ls ++ t) (sym (append-nil (frame crc r)))
              ∙ sym (frames-append crc ls (r ∷ [])) in
            let size = ap length longer in
            let size' = length-append (frames crc ls) (frame crc r) in
            let next =
              copy_records-kept keep (ls ++ r ∷ []) rs h (omega (arith, room, sum, size, size')) in
            rw (e, log_one (frames crc ls) r a (omega (arith, room, sum)), longer)
              (next ∙ ap (λ l. ok (at (frames crc l))) (append_assoc ls (r ∷ []) (kept keep rs)))
      ]

  -- Numbers that rise, none above `before`.
  abbrev pub RisesTo : ℕ → List (ℕ × List Record) → Type 0
  RisesTo before [] = Unit {0}
  RisesTo before ((m, rs) ∷ cs) = (m ≤ before) × All (λ s. m < s.0) cs × RisesTo before cs

  keep_files-pass :
      (p : ℕ → Bool) (st : List (ℕ × List Record)) (more : List (ℕ × Bytes))
      → All (λ s. p s.0 ≡ true) st
      → keep_files p (map (framed crc) st ++ more) ≡ map (framed crc) st ++ keep_files p more
  unfolding keep_files
  keep_files-pass p [] more h = refl
  keep_files-pass p ((m, rs) ∷ st) more (a, h) =
      rw a (ap (λ t. (m, frames crc rs) ∷ t) (keep_files-pass p st more h))

  keep_files-drop :
      (p : ℕ → Bool) (st : List (ℕ × List Record)) (more : List (ℕ × Bytes))
      → All (λ s. p s.0 ≡ false) st
      → keep_files p (map (framed crc) st ++ more) ≡ keep_files p more
  unfolding keep_files
  keep_files-drop p [] more h = refl
  keep_files-drop p ((m, rs) ∷ st) more (a, h) = rw a (keep_files-drop p st more h)

  none_above :
      (before : ℕ) (cs : List (ℕ × List Record))
      → RisesTo before cs
      → All (λ s. before < s.0) cs
      → cs ≡ []
  none_above before [] h k = refl
  none_above before ((m, rs) ∷ cs) (a, c, h) (b, k) = absurd (omega (arith, a, b))

  -- Of the checkpoints only the new one is left.
  put_file-only :
      (before : ℕ) (bs : Bytes) (cs : List (ℕ × List Record))
      → RisesTo before cs
      → keep_files (λ n. not (ltb n before)) (put_file before bs (map (framed crc) cs))
        ≡ (before, bs) ∷ []
  unfolding keep_files put_file
  put_file-only before bs [] h = let e : ltb before before ≡ false = ground arith in rw e refl
  put_file-only before bs ((m, rs) ∷ cs) (a, above, h) = elim (Bool-cases (m == before)) [
    | inl same ↦
        let e : ltb before before ≡ false = ground arith in
        let m_is : m ≡ before = ground (arith, same) in
        let none_left = none_above before cs h (subst (λ n. All (λ s. n < s.0) cs) m_is above) in
        rw (same, e, none_left) refl
    | inr other ↦
        let after : ltb before m ≡ false = ground (arith, a) in
        let older : ltb m before ≡ true = ground (arith, a, other) in
        rw (other, after, older) (put_file-only before bs cs h)
  ]

  All-map :
      {P Q : ℕ → Type 0} (st : List (ℕ × List Record))
      → ((m : ℕ) → P m → Q m)
      → All (λ s. P s.0) st
      → All (λ s. Q s.0) st
  All-map [] f h = tt
  All-map (s ∷ st) f (a, h) = (f s.0 a, All-map st f h)

  split_files :
      (old mid : List (ℕ × List Record)) (n : ℕ) (bs : Bytes)
      → map (framed crc) (old ++ mid) ++ (n, bs) ∷ []
        ≡ map (framed crc) old ++ (map (framed crc) mid ++ (n, bs) ∷ [])
  split_files old mid n bs =
      ap (λ t. t ++ (n, bs) ∷ []) (map-append (framed crc) old mid)
      ∙ append_assoc (map (framed crc) old) (map (framed crc) mid) ((n, bs) ∷ [])

  last_stays :
      (before n : ℕ) (bs : Bytes)
      → before ≤ n
      → (keep_files (λ m. ltb m before) ((n, bs) ∷ []) ≡ [])
        × (keep_files (λ m. not (ltb m before)) ((n, bs) ∷ []) ≡ (n, bs) ∷ [])
  unfolding keep_files
  last_stays before n bs h =
      let e : ltb n before ≡ false = ground (arith, h) in (rw e refl, rw e refl)

  doomed :
      (before : ℕ) (old mid : List (ℕ × List Record)) (n : ℕ) (bs : Bytes)
      → All (λ s. s.0 < before) old
      → All (λ s. before ≤ s.0) mid
      → before ≤ n
      → keep_files (λ m. ltb m before) (map (framed crc) (old ++ mid) ++ (n, bs) ∷ [])
        ≡ map (framed crc) old
  doomed before old mid n bs small large last =
      ap (keep_files (λ m. ltb m before)) (split_files old mid n bs)
      ∙ keep_files-pass (λ m. ltb m before) old _
          (All-map {P = λ m. m < before} old (λ m h. ground (arith, h)) small)
      ∙ ap (λ t. map (framed crc) old ++ t)
          (keep_files-drop (λ m. ltb m before) mid ((n, bs) ∷ [])
              (All-map {P = λ m. before ≤ m} mid (λ m h. ground (arith, h)) large)
            ∙ (last_stays before n bs last).0)
      ∙ append-nil (map (framed crc) old)

  left :
      (before : ℕ) (old mid : List (ℕ × List Record)) (n : ℕ) (bs : Bytes)
      → All (λ s. s.0 < before) old
      → All (λ s. before ≤ s.0) mid
      → before ≤ n
      → keep_files (λ m. not (ltb m before)) (map (framed crc) (old ++ mid) ++ (n, bs) ∷ [])
        ≡ map (framed crc) mid ++ (n, bs) ∷ []
  left before old mid n bs small large last =
      ap (keep_files (λ m. not (ltb m before))) (split_files old mid n bs)
      ∙ keep_files-drop (λ m. not (ltb m before)) old _
          (All-map {P = λ m. m < before} old (λ m h. ground (arith, h)) small)
      ∙ keep_files-pass (λ m. not (ltb m before)) mid ((n, bs) ∷ [])
          (All-map {P = λ m. before ≤ m} mid (λ m h. ground (arith, h)) large)
      ∙ ap (λ t. map (framed crc) mid ++ t) (last_stays before n bs last).1

  old_checkpoints :
      (before : ℕ) (cs : List (ℕ × List Record))
      → RisesTo before cs
      → keep_files (λ n. leb n before) (map (framed crc) cs) ≡ map (framed crc) cs
  unfolding keep_files
  old_checkpoints before [] h = refl
  old_checkpoints before ((m, rs) ∷ cs) (a, b, h) =
      let e : leb m before ≡ true = ground (arith, a) in
      rw e (ap (λ t. (m, frames crc rs) ∷ t) (old_checkpoints before cs h))

  module _ (crc_lt : (bs : Bytes) → crc bs < 2 ^ 32) where
    copy_kept-kept :
        (keep : Record → Bool) (ls rs : List Record) (name : FileName)
        → All IsRecord rs
        → length (frames crc ls) + length (frames crc rs) ≤ 2 ^ 62
        → copy_kept crc keep (at (frames crc ls)) (name, frames crc rs)
          ≡ ok (at (frames crc (ls ++ kept keep rs)))
    unfolding copy_kept
    copy_kept-kept keep ls rs name h room =
        let r = replay-layout crc crc_lt {s = true} name [] rs [] tt h (inl refl) in
        let read = read_all-Replays crc crc_lt r in
        let whole : frames crc rs ++ [] ≡ frames crc rs = append-nil (frames crc rs) in
        rw (subst (λ bs. read_all crc ((name, bs) ∷ []) true ≡ ok (rs, r.reader)) whole read)
          (copy_records-kept keep ls rs h room)

    length-kept :
        (keep : Record → Bool) (rs : List Record)
        → length (frames crc (kept keep rs)) ≤ length (frames crc rs)
    unfolding frames
    length-kept keep [] = omega arith
    length-kept keep (r ∷ rs) =
        let sum = length-append (frame crc r) (frames crc rs) in
        let sum' = length-append (frame crc r) (frames crc (kept keep rs)) in
        let rest = length-kept keep rs in
        elim (Bool-cases (keep r)) [
          | inl e ↦ rw e (omega (arith, sum, sum', rest))
          | inr e ↦ rw e (omega (arith, sum, rest))
        ]

    copy_all-kept :
        (keep : Record → Bool) (ls : List Record) (st : List (FileName × List Record))
        → AllRecords st
        → length (frames crc ls) + length (frames crc (records_of st)) ≤ 2 ^ 62
        → copy_all crc keep (at (frames crc ls)) (prefix crc st [])
          ≡ ok (at (frames crc (ls ++ kept keep (records_of st))))
    unfolding copy_all
    copy_all-kept keep ls [] h room = ap (λ l. ok (at (frames crc l))) (sym (append-nil ls))
    copy_all-kept keep ls ((name, rs) ∷ st) (a, h) room =
        let sum =
          ap length (frames-append crc rs (records_of st))
          ∙ length-append (frames crc rs) (frames crc (records_of st)) in
        let sum' =
          ap length (frames-append crc ls (kept keep rs))
          ∙ length-append (frames crc ls) (frames crc (kept keep rs)) in
        let less = length-kept keep rs in
        rw (copy_kept-kept keep ls rs name a (omega (arith, room, sum))) (
          copy_all-kept keep (ls ++ kept keep rs) st h (omega (arith, room, sum, sum', less))
          ∙ ap (λ l. ok (at (frames crc l)))
              (append_assoc ls (kept keep rs) (kept keep (records_of st))
                ∙ ap (λ t. ls ++ t) (sym (kept-append keep rs (records_of st)))))

    prefix-named :
        (cs st : List (ℕ × List Record))
        → map as_checkpoint (map (framed crc) cs) ++ map as_segment (map (framed crc) st)
          ≡ prefix crc (named cs st) []
    prefix-named [] [] = refl
    prefix-named [] (s ∷ st) = ap (λ t. as_segment (framed crc s) ∷ t) (prefix-named [] st)
    prefix-named (c ∷ cs) st = ap (λ t. as_checkpoint (framed crc c) ∷ t) (prefix-named cs st)

    -- `Truncate` on a log whose segments before `before` are `old`: one checkpoint takes the place of
    -- the checkpoints and of these segments, and holds, in order, the records of them that are kept;
    -- the other segments stay as they are.
    pub truncate-keeps :
        (keep : Record → Bool) (before : ℕ) (cs old mid : List (ℕ × List Record)) (n : ℕ)
        (bs : Bytes)
        → AllStored cs
        → AllStored old
        → RisesTo before cs
        → All (λ s. s.0 < before) old
        → All (λ s. before ≤ s.0) mid
        → before ≤ n
        → old ≢ []
        → length (frames crc (stored_of cs ++ stored_of old)) ≤ 2 ^ 62
        → truncate crc (dir_of crc cs (old ++ mid) n bs) before (some keep)
          ≡ ok (dir_of crc ((before, kept keep (stored_of cs ++ stored_of old)) ∷ []) mid n bs)
    unfolding truncate truncate_doomed published write_checkpoint frames
    truncate-keeps keep before cs [] mid n bs hc ho rises small large last some_old room =
        absurd (some_old refl)
    truncate-keeps keep before cs (o ∷ old) mid n bs hc ho rises small large last some_old room =
        let all = named cs (o ∷ old) in
        let read = records_of-named cs (o ∷ old) in
        let copied =
          copy_all-kept keep [] all (named-AllRecords cs (o ∷ old) hc ho)
            (rw read (omega (arith, room))) in
        let content = ap (λ rs. frames crc (kept keep rs)) read in
        rw
          (
            doomed before (o ∷ old) mid n bs small large last,
            old_checkpoints before cs rises,
            prefix-named cs (o ∷ old),
          )
          (rw copied (λ j. ok (record {
            checkpoints = (put_file-only before (content j) cs rises j);
            segments = left before (o ∷ old) mid n bs small large last j;
          })))
