-- ===== src/Wal/Recovery.antt =====
-- What survives: a replay of the files of a log gives what was logged, and `Repair` cuts a torn tail
-- and nothing else.
use ozymandias.Base.{
  ℕ, ◌<◌, ◌^◌, ◌≡◌, refl, sym, ap, ◌∙◌, Bool, true, false, not, none, some, List, [], ◌∷◌, ◌++◌,
  length, take, map, arith, inl, inr, All, Bool-cases, leb, ◌==◌, take-append, take_all,
  length-append,
}
use mathlib.Core.Path.{subst}
use mathlib.Core.List.{append_assoc, append-nil}
use ozymandias.Base.Int.{ℤ}
use ozymandias.Base.Bytes.{Bytes}
use ozymandias.Wal.Frame.{Record, IsRecord, frames}
use ozymandias.Wal.Reader.{FileName, checkpoint, segment, Dir, Position, segment_number}
use ozymandias.Wal.Replay.{position}
use ozymandias.Wal.Drain.{records_of, AllRecords, layout, IsTail, Replays, replay-layout}
use ozymandias.Wal.Log.{Wal, Os, log, open_log, newest}
use ozymandias.Wal.Append.{AllStored, stored_of, framed, IsLog}
use ozymandias.Wal.Batch.{log-Logged}
use ozymandias.Wal.Files.{
  ok, files_of, judged, replayed, find, cut_file, keep_files, size_of, repair_at, read_all, repair,
}

-- The files of a directory, with the records in them.
abbrev pub named : List (ℕ × List Record) → List (ℕ × List Record) → List (FileName × List Record)
named [] [] = []
named [] ((n, rs) ∷ st) = (segment n, rs) ∷ named [] st
named ((n, rs) ∷ cs) st = (checkpoint n, rs) ∷ named cs st

pub named-AllRecords :
    (cs st : List (ℕ × List Record)) → AllStored cs → AllStored st → AllRecords (named cs st)
named-AllRecords [] [] h k = tt
named-AllRecords [] ((n, rs) ∷ st) h (a, k) = (a, named-AllRecords [] st h k)
named-AllRecords ((n, rs) ∷ cs) st (a, h) k = (a, named-AllRecords cs st h k)

pub records_of-named :
    (cs st : List (ℕ × List Record)) → records_of (named cs st) ≡ stored_of cs ++ stored_of st
records_of-named [] [] = refl
records_of-named [] ((n, rs) ∷ st) = ap (λ t. rs ++ t) (records_of-named [] st)
records_of-named ((n, rs) ∷ cs) st =
    ap (λ t. rs ++ t) (records_of-named cs st) ∙ sym (append_assoc rs (stored_of cs) (stored_of st))

module _ (crc : Bytes → ℕ) where
  -- The directory of a log whose newest segment is `n`.
  abbrev pub dir_of : List (ℕ × List Record) → List (ℕ × List Record) → ℕ → Bytes → Dir
  dir_of cs st n bs = record {
    checkpoints = map (framed crc) cs;
    segments = map (framed crc) st ++ (n, bs) ∷ [];
  }

  pub files_of-dir_of :
      (cs st : List (ℕ × List Record)) (n : ℕ) (ls : List Record) (tail : Bytes)
      → files_of (dir_of cs st n (frames crc ls ++ tail))
        ≡ layout crc (named cs st) (segment n) ls tail
  unfolding files_of
  files_of-dir_of [] [] n ls tail = refl
  files_of-dir_of [] ((m, rs) ∷ st) n ls tail =
      ap (λ t. (segment m, frames crc rs) ∷ t) (files_of-dir_of [] st n ls tail)
  files_of-dir_of ((m, rs) ∷ cs) st n ls tail =
      ap (λ t. (checkpoint m, frames crc rs) ∷ t) (files_of-dir_of cs st n ls tail)

  newest-last :
      (st : List (ℕ × List Record)) (n : ℕ) (bs : Bytes)
      → newest (map (framed crc) st ++ (n, bs) ∷ []) ≡ (map (framed crc) st, n, bs)
  newest-last [] n bs = refl
  newest-last (s ∷ []) n bs = refl
  newest-last (s ∷ t ∷ st) n bs = λ j. (
    framed crc s ∷ (newest-last (t ∷ st) n bs j).0,
    (newest-last (t ∷ st) n bs j).1,
    (newest-last (t ∷ st) n bs j).2,
  )

  module _ (crc_lt : (bs : Bytes) → crc bs < 2 ^ 32) where
    -- A replay of the files of a log, after any crash that leaves a cut of one record at their end,
    -- gives all records of the checkpoints and of the log, in order and without an error.
    pub replay-logged :
        {w : Wal} {st : List (ℕ × List Record)} {ls : List Record} (cs : List (ℕ × List Record))
        → AllStored cs
        → IsLog crc w st ls
        → Replays crc
            (files_of (record {
              checkpoints = map (framed crc) cs;
              segments = w.sealed ++ (w.segment, w.content) ∷ [];
            }))
            false
            ((stored_of cs ++ stored_of st) ++ ls)
            (position (segment w.segment) (length (frames crc ls)))
    replay-logged {w} {st} {ls} cs h l =
        let files = layout crc (named cs st) (segment w.segment) ls l.tail in
        let rs = (stored_of cs ++ stored_of st) ++ ls in
        let pos = position (segment w.segment) (length (frames crc ls)) in
        let d : Dir = record {
          checkpoints = map (framed crc) cs;
          segments = w.sealed ++ (w.segment, w.content) ∷ [];
        } in
        let t : IsTail crc false l.tail = elim l.cut [ inl e ↦ inl e | inr c ↦ inr (refl, c) ] in
        let r =
          replay-layout crc crc_lt (segment w.segment) (named cs st) ls l.tail
            (named-AllRecords cs st h l.stored) l.written t in
        let r' = subst (λ q. Replays crc files false (q ++ ls) pos) (records_of-named cs st) r in
        let same : d ≡ dir_of cs st w.segment (frames crc ls ++ l.tail) = λ j. record {
          checkpoints = map (framed crc) cs;
          segments = l.in_sealed j ++ (w.segment, l.in_content j) ∷ [];
        } in
        subst (λ fs. Replays crc fs false rs pos)
          (sym (ap files_of same ∙ files_of-dir_of cs st w.segment ls l.tail)) r'

    find-last :
        (st : List (ℕ × List Record)) (n : ℕ) (bs : Bytes)
        → All (λ s. s.0 < n) st
        → find n (map (framed crc) st ++ (n, bs) ∷ []) ≡ some bs
    unfolding find
    find-last [] n bs h = (let e : (n == n) ≡ true = ground arith in rw e refl)
    find-last ((m, rs) ∷ st) n bs (a, h) =
        let e : (m == n) ≡ false = ground (arith, a) in rw e (find-last st n bs h)

    cut_file-last :
        (st : List (ℕ × List Record)) (n size : ℕ) (bs : Bytes)
        → All (λ s. s.0 < n) st
        → cut_file n size (map (framed crc) st ++ (n, bs) ∷ [])
          ≡ map (framed crc) st ++ (n, take size bs) ∷ []
    unfolding cut_file
    cut_file-last [] n size bs h = (let e : (n == n) ≡ true = ground arith in rw e refl)
    cut_file-last ((m, rs) ∷ st) n size bs (a, h) =
        let e : (m == n) ≡ false = ground (arith, a) in
        rw e (ap (λ t. (m, frames crc rs) ∷ t) (cut_file-last st n size bs h))

    keep_files-all :
        (st : List (ℕ × List Record)) (n : ℕ) (bs : Bytes)
        → All (λ s. s.0 < n) st
        → keep_files (λ m. leb m n) (map (framed crc) st ++ (n, bs) ∷ [])
          ≡ map (framed crc) st ++ (n, bs) ∷ []
    unfolding keep_files
    keep_files-all [] n bs h = (let e : leb n n ≡ true = ground arith in rw e refl)
    keep_files-all ((m, rs) ∷ st) n bs (a, h) =
        let e : leb m n ≡ true = ground (arith, a) in
        rw e (ap (λ t. (m, frames crc rs) ∷ t) (keep_files-all st n bs h))

    repair_at-last :
        (cs st : List (ℕ × List Record)) (n : ℕ) (ls : List Record) (tail : Bytes)
        → All (λ s. s.0 < n) st
        → repair_at
            (dir_of cs st n (frames crc ls ++ tail))
            (segment n)
            (position (segment n) (length (frames crc ls)))
          ≡ ok (dir_of cs st n (frames crc ls), not (length tail == 0))
    unfolding repair_at size_of segment_number
    repair_at-last cs st n ls tail sorted =
        let size = length-append (frames crc ls) tail in
        let d = dir_of cs st n (frames crc ls ++ tail) in
        let found = find-last st n (frames crc ls ++ tail) sorted in
        elim (Bool-cases (length tail == 0)) [
          | inl e ↦
              let here : (length (frames crc ls ++ tail) == length (frames crc ls)) ≡ true =
                ground (arith, e, size) in
              let same : frames crc ls ++ tail ≡ frames crc ls =
                sym (
                  take_all (length (frames crc ls)) (frames crc ls ++ tail)
                    (ground (arith, e, size)))
                ∙ take-append (frames crc ls) tail _ refl in
              rw (found, here, e) (ap (λ bs. ok (dir_of cs st n bs, false)) same)
          | inr e ↦
              let off : (length (frames crc ls ++ tail) == length (frames crc ls)) ≡ false =
                ground (arith, e, size) in
              rw
                (
                  found,
                  off,
                  e,
                  cut_file-last st n (length (frames crc ls)) (frames crc ls ++ tail) sorted,
                  take-append (frames crc ls) tail (length (frames crc ls)) refl,
                  keep_files-all st n (frames crc ls) sorted,
                )
                refl
        ]

    pub read_all-Replays :
        {files : List (FileName × Bytes)} {s : Bool} {rs : List Record} {pos : Position}
        (r : Replays crc files s rs pos)
        → read_all crc files s ≡ ok (rs, r.reader)
    unfolding read_all
    read_all-Replays {rs = rs} r = ap replayed r.outcome ∙ ap (judged (rs, r.reader)) r.sound

    -- `Repair` cuts the torn tail off the newest segment, reports whether it did, and changes nothing
    -- else, whatever checkpoints and older segments of whole records there are; a replay of what is left
    -- gives all the records that were whole, in order, without an error.
    pub repair-cuts :
        (cs st : List (ℕ × List Record)) (n : ℕ) (ls : List Record) (tail : Bytes)
        → AllStored cs
        → AllStored st
        → All IsRecord ls
        → All (λ s. s.0 < n) st
        → IsTail crc false tail
        → (repair crc (dir_of cs st n (frames crc ls ++ tail))
            ≡ ok (dir_of cs st n (frames crc ls), not (length tail == 0)))
          × Replays crc
              (files_of (dir_of cs st n (frames crc ls)))
              false
              ((stored_of cs ++ stored_of st) ++ ls)
              (position (segment n) (length (frames crc ls)))
    unfolding repair
    repair-cuts cs st n ls tail hc hs hl sorted t =
        let named_all = named-AllRecords cs st hc hs in
        let replayed_as = λ (bs : Bytes) (u : IsTail crc false bs).
          replay-layout crc crc_lt (segment n) (named cs st) ls bs named_all hl u in
        let r = replayed_as tail t in
        let at = r.at in
        let pos = position (segment n) (length (frames crc ls)) in
        (
          rw (files_of-dir_of cs st n ls tail, read_all-Replays r)
              (rw at (repair_at-last cs st n ls tail sorted)),
          subst
              (λ bs.
                Replays crc (files_of (dir_of cs st n bs)) false
                  ((stored_of cs ++ stored_of st) ++ ls) pos)
              (append-nil (frames crc ls))
              (subst (λ fs. Replays crc fs false ((stored_of cs ++ stored_of st) ++ ls) pos)
                (sym (files_of-dir_of cs st n ls []))
                (subst
                  (λ q.
                    Replays crc (layout crc (named cs st) (segment n) ls []) false (q ++ ls) pos)
                  (records_of-named cs st) (replayed_as [] (inl refl)))),
        )

    -- What is logged is replayed: whatever the operating system does in a call of `Log`, a replay of
    -- the files ends without an error and gives all that was in them, and then some of the batch, in
    -- order; the whole batch if no error was reported.
    pub log-replayed :
        {st : List (ℕ × List Record)} {ls : List Record} (cs : List (ℕ × List Record)) (w : Wal)
        (os : Os) (rs : List Record)
        → AllStored cs
        → All (λ (r : Record). r.kind < 256) rs
        → IsLog crc w st ls
        → (count : ℕ) × ((pos : Position) × Replays crc
              (files_of (record {
                checkpoints = map (framed crc) cs;
                segments =
                    (log crc w os rs).0.sealed
                    ++ ((log crc w os rs).0.segment, (log crc w os rs).0.content) ∷ [];
              }))
              false
              (((stored_of cs ++ stored_of st) ++ ls) ++ take count rs)
              pos)
          × ((log crc w os rs).1 ≡ none → take count rs ≡ rs)
    log-replayed {st} {ls} cs w os rs hc h l =
        let g = log-Logged crc w os rs h l in
        let w' = (log crc w os rs).0 in
        let new = g.before ++ take g.count rs in
        let pos = position (segment w'.segment) (length (frames crc new)) in
        let order : (stored_of cs ++ stored_of g.sealed) ++ new
            ≡ ((stored_of cs ++ stored_of st) ++ ls) ++ take g.count rs =
          sym (append_assoc (stored_of cs ++ stored_of g.sealed) g.before (take g.count rs))
          ∙ ap (λ q. q ++ take g.count rs)
              (append_assoc (stored_of cs) (stored_of g.sealed) g.before
                ∙ ap (λ q. stored_of cs ++ q) g.same
                ∙ sym (append_assoc (stored_of cs) (stored_of st) ls)) in
        let r = replay-logged cs hc g.holds in
        (
          g.count,
          (
            pos,
            subst
                (λ q.
                  Replays crc
                    (files_of (record {
                      checkpoints = map (framed crc) cs;
                      segments = w'.sealed ++ (w'.segment, w'.content) ∷ [];
                    }))
                    false q pos)
                order r,
          ),
          g.whole,
        )

    -- What `Open` finds after a `Repair` is a log of what the replay gave.
    pub repaired_opens :
        (segment_size : ℤ) (st : List (ℕ × List Record)) (n : ℕ) (ls : List Record)
        → AllStored st
        → All IsRecord ls
        → IsLog crc (open_log segment_size (map (framed crc) st ++ (n, frames crc ls) ∷ [])) st ls
    unfolding open_log
    repaired_opens segment_size st n ls hs hl = rw (newest-last st n (frames crc ls)) (record {
      tail = [];
      in_sealed = refl;
      in_content = sym (append-nil (frames crc ls));
      clean = λ e. (refl, refl);
      cut = inl refl;
      stored = hs;
      written = hl;
    })
