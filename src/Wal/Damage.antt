-- ===== src/Wal/Damage.antt =====
-- reader.go on damage that is no torn tail, and truncate.go's `Repair` on it.
use ozymandias.Base.{
  ◌≤◌, ◌||◌, take, drop, take_all, length-take, ℕ, suc, ◌+◌, ◌-◌, ◌<◌, ◌^◌, ◌≡◌, ◌≢◌, refl, ap, ◌∙◌,
  Bool, true, false, not, ◌&&◌, some, List, [], ◌∷◌, ◌++◌, length, arith, ◌⊎◌, inl, inr, All, ltb,
  leb, ◌==◌, take-append, length-append,
}
use mathlib.Core.Path.{subst}
use mathlib.Core.List.{append-nil}
use ozymandias.Base.Bytes.{Bytes}
use ozymandias.Base.Wire.{get_be}
use ozymandias.Wal.Frame.{header_size, max_record_size, Record, IsRecord, header, frames}
use ozymandias.Wal.Reader.{
  FileName, Dir, Reader, Corrupt, Damage, Read, short_header, implausible_header, short_payload,
  crc_mismatch, over, consumed, open_next, read_payload, read_record, next, torn, ends_at, replay,
  start_reader, bytes_of, is_empty,
}
use ozymandias.Wal.Replay.{position, IsOpen, read_header}
use ozymandias.Wal.Drain.{
  records_of, AllRecords, prefix, Drained, Drained-done, Drained-same, drain_records, drain_prefix,
  frames-long, bytes-prefix, next_over, skip_to-open, opened,
}
use ozymandias.Wal.Append.{branch_false}
use ozymandias.Wal.Files.{failed, corrupt, files_of, repair, read_all, replayed, judged}

-- The fields of a header, by their places.
abbrev pub length_in : Bytes → ℕ
length_in bs = get_be (take 4 (take header_size bs))

abbrev pub kind_in : Bytes → ℕ
kind_in bs = get_be (take 1 (drop 4 (take header_size bs)))

length-take_le : (n : ℕ) (bs : Bytes) → n ≤ length bs → length (take n bs) ≡ n
length-take_le n bs h = omega (arith, h, length-take n bs)

not_empty : (fs : List (FileName × Bytes)) → fs ≢ [] → is_empty fs ≡ false
not_empty [] h = absurd (h refl)
not_empty (f ∷ fs) h = refl

module _ (crc : Bytes → ℕ) (crc_lt : (bs : Bytes) → crc bs < 2 ^ 32) where
  -- What stands where a record should, with the cause of the error and how far the damage reaches: less
  -- than a header, a header whose type is 0 or whose length passes the limit, a header with less than
  -- its payload, or a payload whose checksum is not that of its header.
  pub data IsDamage : Bytes → Damage → ℕ → Type 0 where
    no_header :
        (bs : Bytes)
        → 0 < length bs
        → length bs < header_size
        → IsDamage bs (short_header (length bs)) (length bs)
    no_sense :
        (bs : Bytes)
        → header_size ≤ length bs
        → (kind_in bs ≡ 0) ⊎ (max_record_size < length_in bs)
        → IsDamage bs
            (implausible_header (kind_in bs) (length_in bs))
            (header_size + max_record_size)
    no_payload :
        (x : Record) (bs : Bytes)
        → IsRecord x
        → length bs < length x.payload
        → IsDamage
            (header crc x ++ bs)
            (short_payload (length bs) (length x.payload))
            (header_size + length bs)
    altered :
        (x : Record) (bad behind : Bytes)
        → IsRecord x
        → length bad ≡ length x.payload
        → crc bad ≢ crc x.payload
        → IsDamage
            (header crc x ++ (bad ++ behind))
            (crc_mismatch (crc bad) (crc x.payload))
            (header_size + length x.payload)

  -- The damage is followed by bytes of its file or by other files, or the reader is strict.
  abbrev pub IsNoTail : Bytes → ℕ → List (FileName × Bytes) → Bool → Type 0
  IsNoTail bs reach files s = (reach < length bs) ⊎ ((files ≢ []) ⊎ (s ≡ true))

  abbrev pub report : FileName → ℕ → Damage → Corrupt
  report name done cause = record { file = some name; offset = done; cause = cause }

  torn_loud :
      (r : Reader) (cause : Damage) (damage_ends : ℕ)
      → (r.last && not r.strict && leb r.size damage_ends) ≡ false
      → torn r cause damage_ends
        ≡ record r { err = some (record { file = r.end.file; offset = r.off; cause = cause }) }
  unfolding torn ends_at
  torn_loud r cause damage_ends e = branch_false _ _ _ e

  far_from_end :
      {files : List (FileName × Bytes)} {name : FileName} {s : Bool} {done : ℕ} (r : Reader)
      (bs : Bytes) (reach ends : ℕ)
      → ends ≡ r.off + reach
      → IsNoTail bs reach files s
      → IsOpen files name s done bs r
      → (r.last && not r.strict && leb r.size ends) ≡ false
  far_from_end r bs reach ends e (inl past) o =
      let z = o.sized in
      let b = o.behind in
      let far : leb r.size ends ≡ false = ground (arith, e, past, z, b) in ground (arith, far)
  far_from_end {files} r bs reach ends e (inr (inl others)) o =
      let l = o.is_last in
      let lasting : r.last ≡ false = l ∙ not_empty files others in ground (arith, lasting)
  far_from_end r bs reach ends e (inr (inr strict)) o =
      let t = o.strictness in let k : r.strict ≡ true = t ∙ strict in ground (arith, k)

  -- The reader stops with the error.
  abbrev Reported : FileName → ℕ → Damage → Read → Type 0
  Reported name done cause answer =
      (r' : Reader) × (answer ≡ over r')
      × (r'.err ≡ some (report name done cause))
      × (r'.end ≡ position name done)

  told :
      {files : List (FileName × Bytes)} {name : FileName} {s : Bool} {done : ℕ} (r : Reader)
      (bs rest : Bytes) (cause : Damage) (reach ends : ℕ)
      → ends ≡ r.off + reach
      → IsNoTail bs reach files s
      → IsOpen files name s done bs r
      → Reported name done cause (over (torn (consumed r rest) cause ends))
  told r bs rest cause reach ends e t o =
      let q = consumed r rest in
      (
        record q { err = some (record { file = q.end.file; offset = q.off; cause = cause }) },
        ap over (torn_loud q cause ends (far_from_end r bs reach ends e t o)),
        λ j. some (record { file = (o.at_position j).file; offset = o.behind j; cause = cause }),
        o.at_position,
      )

  read_damaged :
      {files : List (FileName × Bytes)} {name : FileName} {s : Bool} {done : ℕ} {bs : Bytes}
      {cause : Damage} {reach : ℕ} (r : Reader)
      → IsDamage bs cause reach
      → IsNoTail bs reach files s
      → IsOpen files name s done bs r
      → Reported name done cause (read_record crc r bs)
  unfolding read_record read_payload
  read_damaged r (no_header bs some_bytes few) t o =
      let all : take header_size bs ≡ bs = take_all header_size bs (omega (arith, few)) in
      let short : ltb (length bs) header_size ≡ true = ground (arith, few) in
      let filled : (length bs == 0) ≡ false = ground (arith, some_bytes) in
      rw (all, filled, short) (told r bs [] _ (length bs) (r.off + length bs) refl t o)
  read_damaged r (no_sense bs whole senseless) t o =
      let n : length (take header_size bs) ≡ header_size = length-take_le header_size bs whole in
      let bad : (kind_in bs == 0 || ltb max_record_size (length_in bs)) ≡ true =
        ground (arith, senseless) in
      rw (n, bad)
        (told r bs (drop header_size bs) _ (header_size + max_record_size)
          (r.off + header_size + max_record_size) (omega arith) t o)
  read_damaged r (no_payload x behind h few) t o =
      let all : take (length x.payload) behind ≡ behind = take_all _ behind (omega (arith, few)) in
      let short : ltb (length behind) (length x.payload) ≡ true = ground (arith, few) in
      rw (read_header crc crc_lt r x behind h, all, short)
        (told r (header crc x ++ behind) [] _ (header_size + length behind)
          (r.off + header_size + length behind) (omega arith) t o)
  read_damaged r (altered x bad behind h long other) t o =
      let full : ltb (length bad) (length x.payload) ≡ false = ground (arith, long) in
      let bad_sum : (crc bad == crc x.payload) ≡ false = ground (arith, other) in
      rw (read_header crc crc_lt r x (bad ++ behind) h) (
        rw (take-append bad behind (length x.payload) long, full, bad_sum)
          (told r (header crc x ++ (bad ++ behind)) (drop (length x.payload) (bad ++ behind)) _
            (header_size + length x.payload) (r.off + header_size + length x.payload) (omega arith)
            t o))

  -- A replay of files of whole records up to damage stops there: what is given are the records before
  -- it, and an error with its cause, its file and its offset. The damage may be any of those that are
  -- told apart, unless it is a torn tail: with nothing behind what it reaches in the last file, for a
  -- reader that is not strict.
  pub damage_reported :
      {s : Bool} (st : List (FileName × List Record)) (name : FileName) (rs : List Record)
      (bs : Bytes) (cause : Damage) (reach : ℕ) (files : List (FileName × Bytes))
      → AllRecords st
      → All IsRecord rs
      → IsDamage bs cause reach
      → IsNoTail bs reach files s
      → (e : Reader) × (replay crc (prefix crc st ((name, frames crc rs ++ bs) ∷ files)) s
          ≡ some (records_of st ++ rs, e))
        × (e.err ≡ some (report name (length (frames crc rs)) cause))
  unfolding replay start_reader next
  damage_reported {s} st name rs rest cause reach files hs hr d t =
      let bs = frames crc rs ++ rest in
      let all = (name, bs) ∷ files in
      let room = bytes-prefix crc crc_lt st all in
      let fuel : ℕ = suc (bytes_of (prefix crc st all)) - length (records_of st) in
      let some_left : fuel ≡ length rs + suc (fuel - length rs - 1) =
        omega (arith, room, frames-long crc crc_lt rs, length-append (frames crc rs) rest) in
      let pos = position name (length (frames crc rs)) in
      let err = some (report name (length (frames crc rs)) cause) in
      let start = start_reader s (prefix crc st all) in
      let done =
        drain_prefix crc crc_lt s fuel (suc (bytes_of (prefix crc st all))) start start st all rs
          pos err (omega (arith, room)) hs refl refl refl
          (λ q q' sound strict e.
            let r1 = open_next q' (name, bs) files in
            let o =
              subst (λ b. IsOpen files name b 0 bs r1) strict (opened crc q' name bs files sound) in
            let all_read =
              drain_records crc crc_lt 0 (suc (fuel - length rs - 1)) fuel r1 rs rest [] pos err
                some_left hr o
                (λ r2 o2.
                  let far : 0 + length (frames crc rs) ≡ length (frames crc rs) = omega arith in
                  let o3 = subst (λ n. IsOpen files name s n rest r2) far o2 in
                  let (r3, stop, told, at) = read_damaged r2 d t o3 in
                  Drained-done crc (next_over crc r2 o3.ahead stop) told at) in
            Drained-same crc fuel q r1 (e ∙ skip_to-open crc q' name bs files)
              (subst (λ l. Drained crc fuel r1 l pos err) (append-nil rs) all_read)) in
      (done.reader, done.outcome, done.sound)

  -- `Repair` reports such damage too, and leaves the directory as it is.
  pub repair-damaged :
      (dir : Dir) (st : List (FileName × List Record)) (name : FileName) (rs : List Record)
      (bs : Bytes) (cause : Damage) (reach : ℕ) (files : List (FileName × Bytes))
      → files_of dir ≡ prefix crc st ((name, frames crc rs ++ bs) ∷ files)
      → AllRecords st
      → All IsRecord rs
      → IsDamage bs cause reach
      → IsNoTail bs reach files false
      → repair crc dir ≡ failed (corrupt (report name (length (frames crc rs)) cause))
  unfolding repair read_all
  repair-damaged dir st name rs bs cause reach files same hs hr d t =
      let (e, outcome, told_it) = damage_reported st name rs bs cause reach files hs hr d t in
      let answer : read_all crc (files_of dir) false
          ≡ failed (corrupt (report name (length (frames crc rs)) cause)) =
        ap (λ fs. read_all crc fs false) same
        ∙ ap replayed outcome
        ∙ ap (judged (records_of st ++ rs, e)) told_it in
      rw answer refl
