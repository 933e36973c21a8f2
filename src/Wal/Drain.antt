-- ===== src/Wal/Drain.antt =====
-- A replay of whole files gives all their records, and one of a log with a torn tail those before it.
use ozymandias.Base.{
  ℕ, zero, suc, ◌+◌, ◌-◌, ◌^◌, ◌≤◌, ◌<◌, ◌≡◌, refl, sym, ap, ◌∙◌, Bool, false, Option, none, some,
  List, [], ◌∷◌, ◌++◌, length, arith, ◌⊎◌, inl, inr, All, length-append,
}
use mathlib.Core.Path.{subst}
use mathlib.Core.List.{append_assoc, append-nil}
use ozymandias.Base.Bytes.{Bytes}
use ozymandias.Wal.Frame.{Record, IsRecord, frame, frames, length-frame}
use ozymandias.Wal.Reader.{
  FileName, Position, Corrupt, Reader, got, at_end, over, more, finished, open_next, read_record,
  skip_to, next, drain, replay, start_reader, bytes_of,
}
use ozymandias.Wal.Replay.{position, IsOpen, IsTorn, Stopped, read_frame, read_torn}

-- Files with the records in them, the last one apart.
abbrev pub records_of : List (FileName × List Record) → List Record
records_of [] = []
records_of ((name, rs) ∷ st) = rs ++ records_of st

abbrev pub AllRecords : List (FileName × List Record) → Type 0
AllRecords = All (λ f. All IsRecord f.1)

module _ (crc : Bytes → ℕ) where
  -- Whole files in front of others.
  abbrev pub prefix :
      List (FileName × List Record) → List (FileName × Bytes) → List (FileName × Bytes)
  prefix [] files = files
  prefix ((m, qs) ∷ st) files = (m, frames crc qs) ∷ prefix st files

  abbrev pub layout :
      List (FileName × List Record) → FileName → List Record → Bytes → List (FileName × Bytes)
  layout st name rs tail = prefix st ((name, frames crc rs ++ tail) ∷ [])

  pub record Drained (fuel : ℕ) (r : Reader) (rs : List Record) (pos : Position)
      (err : Option Corrupt) : Type 0 where
    pub reader : Reader
    pub outcome : drain crc fuel r ≡ some (rs, reader)
    pub sound : reader.err ≡ err
    pub at : reader.end ≡ pos

  -- What may stand behind the last record.
  abbrev pub IsTail : Bool → Bytes → Type 0
  IsTail strict tail = (tail ≡ []) ⊎ ((strict ≡ false) × IsTorn crc tail)

  pub Drained-more :
      {fuel : ℕ} {r r' : Reader} {x : Record} {rs : List Record} {pos : Position}
      {err : Option Corrupt}
      → next crc r ≡ more r'
      → r'.rec ≡ x
      → Drained fuel r' rs pos err
      → Drained (suc fuel) r (x ∷ rs) pos err
  unfolding drain
  Drained-more {rs = rs} n same d =
      let o = d.outcome in
      record {
        reader = d.reader;
        outcome = rw (n, drain, o) (ap (λ y. some (y ∷ rs, d.reader)) same);
        sound = d.sound;
        at = d.at;
      }

  pub Drained-done :
      {fuel : ℕ} {r r' : Reader} {pos : Position} {err : Option Corrupt}
      → next crc r ≡ finished r'
      → r'.err ≡ err
      → r'.end ≡ pos
      → Drained (suc fuel) r [] pos err
  unfolding drain
  Drained-done {r' = r'} n sound at = record {
    reader = r';
    outcome = rw (n, drain) refl;
    sound = sound;
    at = at;
  }

  pub Drained-same :
      (fuel : ℕ) (r r' : Reader) {rs : List Record} {pos : Position} {err : Option Corrupt}
      → next crc r ≡ next crc r'
      → Drained fuel r' rs pos err
      → Drained fuel r rs pos err
  unfolding drain
  Drained-same zero r r' n d = (let o = d.outcome in cc)
  Drained-same (suc fuel) r r' n d = record {
    reader = d.reader;
    outcome = rw (n, drain) d.outcome;
    sound = d.sound;
    at = d.at;
  }

  -- The next of an open file's records.
  next_got :
      (r : Reader) {r' : Reader} {bs : Bytes}
      → r.br ≡ some bs
      → read_record crc r bs ≡ got r'
      → next crc r ≡ more r'
  unfolding next
  next_got r a e = rw (a, next, e) refl

  pub next_over :
      (r : Reader) {r' : Reader} {bs : Bytes}
      → r.br ≡ some bs
      → read_record crc r bs ≡ over r'
      → next crc r ≡ finished r'
  unfolding next
  next_over r a e = rw (a, next, e) refl

  next_at_end :
      (r : Reader) {bs : Bytes}
      → r.br ≡ some bs
      → read_record crc r bs ≡ at_end
      → next crc r ≡ skip_to crc r.files (record r { br = none })
  unfolding next
  next_at_end r a e = rw (a, next, e) refl

  read_nothing : (r : Reader) → read_record crc r [] ≡ at_end
  unfolding read_record
  read_nothing r = refl

  -- To open the next file is to go on in a reader that has it open.
  pub skip_to-open :
      (r : Reader) (name : FileName) (bs : Bytes) (fs : List (FileName × Bytes))
      → skip_to crc ((name, bs) ∷ fs) r ≡ next crc (open_next r (name, bs) fs)
  unfolding skip_to next open_next
  skip_to-open r name bs fs = refl

  pub opened :
      (r : Reader) (name : FileName) (bs : Bytes) (fs : List (FileName × Bytes))
      → r.err ≡ none
      → IsOpen fs name r.strict 0 bs (open_next r (name, bs) fs)
  unfolding open_next
  opened r name bs fs sound = record {
    rest = refl;
    ahead = refl;
    sized = omega arith;
    behind = refl;
    is_last = refl;
    strictness = refl;
    sound = sound;
    at_position = refl;
  }

  pub record Replays (files : List (FileName × Bytes)) (s : Bool) (rs : List Record)
      (pos : Position) : Type 0 where
    pub reader : Reader
    pub outcome : replay crc files s ≡ some (rs, reader)
    pub sound : reader.err ≡ none
    pub at : reader.end ≡ pos

  module _ (crc_lt : (bs : Bytes) → crc bs < 2 ^ 32) where
    -- Some records, and then whatever is drained from behind them.
    pub drain_records :
        {fs : List (FileName × Bytes)} {name : FileName} {s : Bool} (done fuel total : ℕ)
        (r : Reader) (rs : List Record) (bs : Bytes) (more_rs : List Record) (pos : Position)
        (err : Option Corrupt)
        → total ≡ length rs + fuel
        → All IsRecord rs
        → IsOpen fs name s done (frames crc rs ++ bs) r
        → ((r' : Reader)
            → IsOpen fs name s (done + length (frames crc rs)) bs r'
            → Drained fuel r' more_rs pos err)
        → Drained total r (rs ++ more_rs) pos err
    unfolding frames
    drain_records {fs} {name} {s} done fuel total r [] bs more_rs pos err e h o rest =
        let same : total ≡ fuel = omega (arith, e) in
        let far : done ≡ done + 0 = omega arith in
        rw same (rest r (subst (λ n. IsOpen fs name s n bs r) far o))
    drain_records done fuel zero r (x ∷ rs) bs more_rs pos err e (a, h) o rest =
        absurd (omega (arith, e))
    drain_records {fs} {name} {s} done fuel (suc total) r (x ∷ rs) bs more_rs pos err e (a, h) o
          rest =
        let split = append_assoc (frame crc x) (frames crc rs) bs in
        let o' : IsOpen fs name s done (frame crc x ++ (frames crc rs ++ bs)) r =
          subst (λ b. IsOpen fs name s done b r) split o in
        let (r', answer, same, moved_on) = read_frame crc crc_lt x (frames crc rs ++ bs) a o' in
        let far : (done + length (frame crc x)) + length (frames crc rs)
            ≡ done + length (frame crc x ++ frames crc rs) =
          omega (arith, length-append (frame crc x) (frames crc rs)) in
        Drained-more (next_got r o'.ahead answer) same (
          drain_records (done + length (frame crc x)) fuel total r' rs bs more_rs pos err
            (omega (arith, e)) h moved_on
            (λ q oq. rest q (subst (λ n. IsOpen fs name s n bs q) far oq)))

    drain_tail :
        {name : FileName} {s : Bool} (done fuel : ℕ) (r : Reader) (tail : Bytes)
        → IsTail s tail
        → IsOpen [] name s done tail r
        → Drained (suc fuel) r [] (position name done) none
    unfolding skip_to
    drain_tail {name} {s} done fuel r tail t o =
        let stopped : Stopped name done (read_record crc r tail) = elim t [
          | inl none_left ↦ inl (rw none_left (read_nothing r))
          | inr (lax, cut) ↦
              read_torn crc crc_lt tail cut (subst (λ b. IsOpen [] name b done tail r) lax o)
        ] in
        elim stopped [
          | inl e ↦
              let n : next crc r ≡ skip_to crc [] (record r { br = none }) =
                subst (λ fs. next crc r ≡ skip_to crc fs (record r { br = none })) o.rest
                  (next_at_end r o.ahead e) in
              Drained-done n o.sound o.at_position
          | inr (r', e, sound, at) ↦ Drained-done (next_over r o.ahead e) sound at
        ]

    drain_last :
        {name : FileName} {s : Bool} (done fuel : ℕ) (r : Reader) (rs : List Record) (tail : Bytes)
        → length rs < fuel
        → All IsRecord rs
        → IsTail s tail
        → IsOpen [] name s done (frames crc rs ++ tail) r
        → Drained fuel r rs (position name (done + length (frames crc rs))) none
    drain_last {name} {s} done fuel r rs tail enough h t o =
        let pos = position name (done + length (frames crc rs)) in
        let d : Drained fuel r (rs ++ []) pos none =
          drain_records done (suc (fuel - length rs - 1)) fuel r rs tail [] pos none
            (omega (arith, enough)) h o
            (λ q oq. drain_tail (done + length (frames crc rs)) _ q tail t oq) in
        rw append-nil at d

    -- Whole files, and then whatever is drained from the files behind them.
    pub drain_prefix :
        (s : Bool) (fuel total : ℕ) (r r' : Reader) (st : List (FileName × List Record))
        (files : List (FileName × Bytes)) (ls : List Record) (pos : Position) (err : Option Corrupt)
        → total ≡ length (records_of st) + fuel
        → AllRecords st
        → r'.err ≡ none
        → r'.strict ≡ s
        → next crc r ≡ skip_to crc (prefix st files) r'
        → ((q q' : Reader)
            → q'.err ≡ none
            → q'.strict ≡ s
            → next crc q ≡ skip_to crc files q'
            → Drained fuel q ls pos err)
        → Drained total r (records_of st ++ ls) pos err
    drain_prefix s fuel total r r' [] files ls pos err enough h sound strict e behind =
        let same : total ≡ fuel = omega (arith, enough) in rw same (behind r r' sound strict e)
    drain_prefix s fuel total r r' ((m, qs) ∷ st) files ls pos err enough (a, h) sound strict e
          behind =
        let rest = prefix st files in
        let bs = frames crc qs in
        let o =
          subst (λ b. IsOpen rest m b 0 bs (open_next r' (m, bs) rest)) strict
            (opened r' m bs rest sound) in
        let o' =
          subst (λ b. IsOpen rest m s 0 b (open_next r' (m, bs) rest)) (sym (append-nil bs)) o in
        let more : ℕ = length (records_of st) + fuel in
        let d =
          drain_records 0 more total _ qs [] (records_of st ++ ls) pos err
            (omega (arith, enough, length-append qs (records_of st))) a o'
            (λ q oq.
              drain_prefix s fuel more q (record q { br = none }) st files ls pos err refl h
                oq.sound oq.strictness
                (subst (λ fs. next crc q ≡ skip_to crc fs (record q { br = none })) oq.rest
                  (next_at_end q oq.ahead (read_nothing q)))
                behind) in
        Drained-same total r _ (e ∙ skip_to-open r' m bs rest)
          (rw (append_assoc qs (records_of st) ls) d)

    -- The last file of a log.
    drain_end :
        {s : Bool} {last : FileName} (fuel : ℕ) (r r' : Reader) (ls : List Record) (tail : Bytes)
        → length ls < fuel
        → All IsRecord ls
        → IsTail s tail
        → r'.err ≡ none
        → r'.strict ≡ s
        → next crc r ≡ skip_to crc ((last, frames crc ls ++ tail) ∷ []) r'
        → Drained fuel r ls (position last (length (frames crc ls))) none
    drain_end {s} {last} fuel r r' ls tail enough hl t sound strict e =
        let bs = frames crc ls ++ tail in
        let o =
          subst (λ b. IsOpen [] last b 0 bs (open_next r' (last, bs) [])) strict
            (opened r' last bs [] sound) in
        let r1 = open_next r' (last, bs) [] in
        let d = drain_last 0 fuel r1 ls tail enough hl t o in
        let far : 0 + length (frames crc ls) ≡ length (frames crc ls) = omega arith in
        Drained-same fuel r _ (e ∙ skip_to-open r' last bs [])
          (subst (λ n. Drained fuel r1 ls (position last n) none) far d)

    pub frames-long : (rs : List Record) → length rs ≤ length (frames crc rs)
    unfolding frames
    frames-long [] = omega arith
    frames-long (r ∷ rs) =
        omega
          (arith, frames-long rs, length-frame crc r, length-append (frame crc r) (frames crc rs))

    pub bytes-prefix :
        (st : List (FileName × List Record)) (files : List (FileName × Bytes))
        → length (records_of st) + bytes_of files ≤ bytes_of (prefix st files)
    bytes-prefix [] files = omega arith
    bytes-prefix ((m, qs) ∷ st) files =
        omega (arith, bytes-prefix st files, frames-long qs, length-append qs (records_of st))

    -- A replay of files of whole records, the last one with a torn tail behind its records unless the
    -- reader is strict, ends, without an error, and gives exactly these records in order; `End` is
    -- where the last one ends.
    pub replay-layout :
        {s : Bool} (last : FileName) (st : List (FileName × List Record)) (ls : List Record)
        (tail : Bytes)
        → AllRecords st
        → All IsRecord ls
        → IsTail s tail
        → Replays
            (layout st last ls tail)
            s
            (records_of st ++ ls)
            (position last (length (frames crc ls)))
    unfolding replay start_reader next
    replay-layout {s} last st ls tail hs hl t =
        let files = layout st last ls tail in
        let pos = position last (length (frames crc ls)) in
        let room = bytes-prefix st ((last, frames crc ls ++ tail) ∷ []) in
        let few : length ls < suc (bytes_of files) - length (records_of st) =
          omega (arith, room, frames-long ls, length-append (frames crc ls) tail) in
        let d =
          drain_prefix s (suc (bytes_of files) - length (records_of st)) (suc (bytes_of files))
            (start_reader s files) (start_reader s files) st ((last, frames crc ls ++ tail) ∷ []) ls
            pos none (omega (arith, room)) hs refl refl refl
            (λ q q' sound strict e. drain_end _ q q' ls tail few hl t sound strict e) in
        record { reader = d.reader; outcome = d.outcome; sound = d.sound; at = d.at }
