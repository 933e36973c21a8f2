-- ===== src/Wal/Batch.antt =====
-- `Log` as a whole: its checks, the rollover between two batches, and the records of one batch.
use ozymandias.Base.{
  ℕ, ◌+◌, ◌<◌, ◌≡◌, refl, sym, ap, ◌∙◌, Bool, false, ◌&&◌, none, some, List, [], ◌∷◌, ◌++◌, length,
  take, arith, ◌⊎◌, inl, inr, All, All-snoc, Bool-cases, Option-cases, ltb, ◌==◌,
}
use mathlib.Core.Path.{subst, ap₂}
use mathlib.Core.List.{append_assoc, append-nil, map-append}
use ozymandias.Base.Bytes.{Bytes}
use ozymandias.Wal.Frame.{max_record_size, Record, IsRecord, frames}
use ozymandias.Wal.Log.{
  Wal, Os, Outcome, Rolled, rolled, not_synced, not_closed, not_opened, roll_failed, log_closed,
  log_broken, total_of, refusal, roll_as, roll, log_checked, log,
}
use ozymandias.Wal.Append.{
  stored_of, framed, IsLog, Wrote, none_written, write_records-Wrote, branch_true, branch_false,
}

stored_of-snoc :
    (st : List (ℕ × List Record)) (n : ℕ) (ls : List Record)
    → stored_of (st ++ (n, ls) ∷ []) ++ [] ≡ stored_of st ++ ls
stored_of-snoc [] n ls = append-nil (ls ++ []) ∙ append-nil ls
stored_of-snoc ((m, rs) ∷ st) n ls =
    append_assoc rs (stored_of (st ++ (n, ls) ∷ [])) []
    ∙ ap (λ t. rs ++ t) (stored_of-snoc st n ls)
    ∙ sym (append_assoc rs (stored_of st) ls)

refusal-none :
    (rs : List Record) → All (λ (r : Record). r.kind < 256) rs → refusal rs ≡ none → All IsRecord rs
unfolding refusal
refusal-none [] h e = tt
refusal-none (r ∷ rs) (a, h) e = elim (Bool-cases (r.kind == 0)) [
  | inl unset ↦ ground (arith, e, unset)
  | inr set ↦ elim (Bool-cases (ltb max_record_size (length r.payload))) [
    | inl large ↦ ground (arith, e, set, large)
    | inr fits ↦ (
      record { set = ground (arith, set); byte = a; within = ground (arith, fits) },
      refusal-none rs h (rw (set, fits) at e),
    )
  ]
]

module _ (crc : Bytes → ℕ) where
  -- Some of a batch is written, behind all that was logged and in one segment, and all of it if no
  -- error is reported.
  pub record Logged (st : List (ℕ × List Record)) (ls rs : List Record) (o : Outcome) : Type 0 where
    pub sealed : List (ℕ × List Record)
    pub before : List Record
    pub same : stored_of sealed ++ before ≡ stored_of st ++ ls
    pub count : ℕ
    pub holds : IsLog crc o.0 sealed (before ++ take count rs)
    pub whole : o.1 ≡ none → take count rs ≡ rs

  in_place :
      {st : List (ℕ × List Record)} {ls rs : List Record} {o : Outcome}
      → Wrote crc st ls rs o
      → Logged st ls rs o
  in_place {st} {ls} w = record {
    sealed = st;
    before = ls;
    same = refl;
    count = w.count;
    holds = w.holds;
    whole = w.whole;
  }

  abbrev next_segment : Wal → Wal
  next_segment w = record w {
    sealed = w.sealed ++ (w.segment, w.content) ∷ [];
    segment = w.segment + 1;
    content = [];
    size = 0;
  }

  roll_as-cases :
      (w : Wal) (r : Rolled)
      → (roll_as r w ≡ (next_segment w, none))
        ⊎ ((u : Bool) × (roll_as r w ≡ (record w { usable = u }, some roll_failed)))
  unfolding roll_as
  roll_as-cases w rolled = inl refl
  roll_as-cases w not_synced = inr (w.usable, refl)
  roll_as-cases w not_closed = inr (false, refl)
  roll_as-cases w not_opened = inr (false, refl)

  roll-cases :
      (w : Wal) (os : Os)
      → (roll w os ≡ (next_segment w, none))
        ⊎ ((u : Bool) × (roll w os ≡ (record w { usable = u }, some roll_failed)))
  unfolding roll
  roll-cases w os = elim (Bool-cases w.usable) [
    | inr shut ↦ inr (w.usable, branch_false w.usable _ _ shut)
    | inl opened ↦ elim (roll_as-cases w os.roll) [
      | inl e ↦ inl (branch_true w.usable _ _ opened ∙ e)
      | inr (u, e) ↦ inr (u, branch_true w.usable _ _ opened ∙ e)
    ]
  ]

  next_segment-IsLog :
      {st : List (ℕ × List Record)} {ls : List Record} (w : Wal)
      → w.broken ≡ false
      → IsLog crc w st ls
      → IsLog crc (next_segment w) (st ++ (w.segment, ls) ∷ []) []
  unfolding frames
  next_segment-IsLog {st} {ls} w b l =
      let full : w.content ≡ frames crc ls =
        l.in_content ∙ ap (λ t. frames crc ls ++ t) (l.clean b).0 ∙ append-nil (frames crc ls) in
      record {
        tail = [];
        in_sealed =
            ap₂ (λ s c. s ++ (w.segment, c) ∷ []) l.in_sealed full
            ∙ sym (map-append (framed crc) st ((w.segment, ls) ∷ []));
        in_content = refl;
        clean = λ e. (refl, refl);
        cut = inl refl;
        stored = All-snoc (λ s. All IsRecord s.1) st (w.segment, ls) l.stored l.written;
        written = tt;
      }

  log_checked-Logged :
      {st : List (ℕ × List Record)} {ls : List Record} (w : Wal) (os : Os) (rs : List Record)
      → All IsRecord rs
      → w.broken ≡ false
      → IsLog crc w st ls
      → Logged st ls rs (log_checked crc w os rs)
  unfolding log_checked
  log_checked-Logged {st} {ls} w os rs h b l =
      elim (Bool-cases (ltb 0 w.size && ltb w.segment_size (w.size + total_of rs))) [
        | inr stays ↦ rw stays (in_place (write_records-Wrote crc ls rs w os 0 h b l))
        | inl rolls ↦ elim (roll-cases w os) [
          | inl e ↦
              let n =
                write_records-Wrote crc [] rs (next_segment w) os 0 h b
                  (next_segment-IsLog w b l) in
              rw (rolls, e)
                (record {
                  sealed = st ++ (w.segment, ls) ∷ [];
                  before = [];
                  same = stored_of-snoc st w.segment ls;
                  count = n.count;
                  holds = n.holds;
                  whole = n.whole;
                })
          | inr (u, e) ↦
              rw (rolls, e)
                (in_place (
                  none_written crc rs (record w { usable = u }) roll_failed
                    (record {
                      tail = l.tail;
                      in_sealed = l.in_sealed;
                      in_content = l.in_content;
                      clean = l.clean;
                      cut = l.cut;
                      stored = l.stored;
                      written = l.written;
                    })))
        ]
      ]

  -- A call of `Log`, whatever the operating system does in it, leaves a log that holds what it held
  -- and then some of the batch, in order and in one segment; the whole batch if no error is reported.
  -- Nothing but a cut of one record can stand behind that, and then the log is broken.
  pub log-Logged :
      {st : List (ℕ × List Record)} {ls : List Record} (w : Wal) (os : Os) (rs : List Record)
      → All (λ (r : Record). r.kind < 256) rs
      → IsLog crc w st ls
      → Logged st ls rs (log crc w os rs)
  unfolding log
  log-Logged {st} {ls} w os [] h l = in_place (record {
    count = 0;
    holds = subst (λ t. IsLog crc w st t) (sym (append-nil ls)) l;
    whole = λ e. refl;
  })
  log-Logged w os (r ∷ rs) h l = elim (Bool-cases w.closed) [
    | inl shut ↦
        subst (Logged _ _ (r ∷ rs)) (sym (branch_true w.closed _ _ shut))
          (in_place (none_written crc (r ∷ rs) w log_closed l))
    | inr unshut ↦
        subst (Logged _ _ (r ∷ rs)) (sym (branch_false w.closed _ _ unshut))
          (elim (Bool-cases w.broken) [
            | inl b ↦
                subst (Logged _ _ (r ∷ rs)) (sym (branch_true w.broken _ _ b))
                  (in_place (none_written crc (r ∷ rs) w log_broken l))
            | inr b ↦
                subst (Logged _ _ (r ∷ rs)) (sym (branch_false w.broken _ _ b))
                  (elim (Option-cases (refusal (r ∷ rs))) [
                    | inl ok ↦
                        rw ok (log_checked-Logged w os (r ∷ rs) (refusal-none (r ∷ rs) h ok) b l)
                    | inr (e, bad) ↦ rw bad (in_place (none_written crc (r ∷ rs) w e l))
                  ])
          ])
  ]
