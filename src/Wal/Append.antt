-- ===== src/Wal/Append.antt =====
-- Every call of `Log` leaves whole records behind, whatever the operating system does.
use ozymandias.Base.{
  ℕ, suc, ◌+◌, ◌≡◌, refl, sym, ap, ◌∙◌, Bool, true, false, ◌&&◌, none, some, List, [], ◌∷◌, ◌++◌,
  length, take, map, arith, ◌⊎◌, inl, inr, All, All-snoc, length-append, Bool-cases, Option-cases,
  leb, ltb, if◌then◌else◌, take_all, take-append, take-append_less, take-append_more,
}
use mathlib.Core.Path.{subst, ap₂}
use mathlib.Core.List.{append_assoc, append-nil}
use ozymandias.Base.Bytes.{Bytes}
use ozymandias.Wal.Frame.{header_size, Record, IsRecord, header, frame, frames, length-frame}
use ozymandias.Wal.Replay.{IsTorn}
use ozymandias.Wal.Log.{
  Wal, Os, LogError, write_failed, undo_failed, Outcome, write, undo_partial, write_records,
}

-- Segments with the records in them.
abbrev pub AllStored : List (ℕ × List Record) → Type 0
AllStored = All (λ s. All IsRecord s.1)

abbrev pub stored_of : List (ℕ × List Record) → List Record
stored_of [] = []
stored_of ((n, rs) ∷ st) = rs ++ stored_of st

pub branch_false {ℓ} : {A : Type ℓ} (b : Bool) (x y : A) → b ≡ false → (if b then x else y) ≡ y
branch_false b x y e = rw e refl

pub branch_true {ℓ} : {A : Type ℓ} (b : Bool) (x y : A) → b ≡ true → (if b then x else y) ≡ x
branch_true b x y e = rw e refl

module _ (crc : Bytes → ℕ) where
  abbrev pub framed : ℕ × List Record → ℕ × Bytes
  framed (n, rs) = (n, frames crc rs)

  -- The log holds the records of `st` in its sealed segments, and `ls` in the one that is written.
  -- Only a broken log has anything behind them, a cut of one record.
  pub record IsLog (w : Wal) (st : List (ℕ × List Record)) (ls : List Record) : Type 0 where
    pub tail : Bytes
    pub in_sealed : w.sealed ≡ map framed st
    pub in_content : w.content ≡ frames crc ls ++ tail
    pub clean : w.broken ≡ false → (tail ≡ []) × (w.size ≡ length (frames crc ls))
    pub cut : (tail ≡ []) ⊎ IsTorn crc tail
    pub stored : AllStored st
    pub written : All IsRecord ls

  -- Some of a batch is written behind `ls`, and all of it if no error is reported.
  pub record Wrote (st : List (ℕ × List Record)) (ls rs : List Record) (o : Outcome) : Type 0 where
    pub count : ℕ
    pub holds : IsLog o.0 st (ls ++ take count rs)
    pub whole : o.1 ≡ none → take count rs ≡ rs

  pub frames-append : (rs qs : List Record) → frames crc (rs ++ qs) ≡ frames crc rs ++ frames crc qs
  unfolding frames
  frames-append [] qs = refl
  frames-append (r ∷ rs) qs =
      ap (λ t. frame crc r ++ t) (frames-append rs qs)
      ∙ sym (append_assoc (frame crc r) (frames crc rs) (frames crc qs))

  frames-snoc :
      (rs : List Record) (x : Record) → frames crc (rs ++ x ∷ []) ≡ frames crc rs ++ frame crc x
  unfolding frames
  frames-snoc rs x =
      frames-append rs (x ∷ []) ∙ ap (λ t. frames crc rs ++ t) (append-nil (frame crc x))

  frames-length :
      (rs : List Record) (x : Record)
      → length (frames crc (rs ++ x ∷ []))
        ≡ length (frames crc rs) + (header_size + length x.payload)
  frames-length rs x =
      ap length (frames-snoc rs x)
      ∙ omega (arith, length-append (frames crc rs) (frame crc x), length-frame crc x)

  abbrev IsCut : Record → Bytes → Type 0
  IsCut x bs = (i : ℕ) × (bs ≡ take i (frame crc x))

  IsCut-header : (x : Record) (k : ℕ) → IsCut x (take k (header crc x))
  unfolding frame
  IsCut-header x k = elim (Bool-cases (leb k (length (header crc x)))) [
    | inl e ↦ (k, sym (take-append_less (header crc x) x.payload k (ground (arith, e))))
    | inr e ↦ (
      length (header crc x),
      take_all k (header crc x) (ground (arith, e))
          ∙ sym (take-append (header crc x) x.payload _ refl),
    )
  ]

  IsCut-payload : (x : Record) (k : ℕ) → IsCut x (header crc x ++ take k x.payload)
  unfolding frame
  IsCut-payload x k =
      let i = length (header crc x) + k in
      (
        i,
        ap (λ j. header crc x ++ take j x.payload) (omega arith)
            ∙ sym (take-append_more (header crc x) x.payload i (omega arith)),
      )

  -- A cut is the whole frame or is torn.
  cut-cases :
      (x : Record) (bs : Bytes) → IsRecord x → IsCut x bs → (bs ≡ frame crc x) ⊎ IsTorn crc bs
  cut-cases x bs h (i, e) = elim (Bool-cases (ltb i (length (frame crc x)))) [
    | inl less ↦
        inr (record { whole = x; kept = i; accepted = h; cut = ground (arith, less); same = e })
    | inr more ↦ inl (e ∙ take_all i (frame crc x) (ground (arith, more)))
  ]

  write-cases :
      (w : Wal) (os : Os) (i : ℕ) (bs : Bytes)
      → (write w os i bs ≡ (record w { content = w.content ++ bs }, true))
        ⊎ ((k : ℕ) × (write w os i bs ≡ (record w { content = w.content ++ take k bs }, false)))
  unfolding write
  write-cases w os i bs = elim (Bool-cases w.usable) [
    | inr shut ↦ inr (
      0,
      branch_false w.usable _ _ shut
          ∙ (λ j. (record w { content = sym (append-nil w.content) j }, false)),
    )
    | inl opened ↦ elim (Option-cases (os.write i)) [
      | inl all ↦ inl (branch_true w.usable _ _ opened ∙ rw all refl)
      | inr (k, part) ↦ inr (k, branch_true w.usable _ _ opened ∙ rw part refl)
    ]
  ]

  pub none_written :
      {st : List (ℕ × List Record)} {ls : List Record} (rs : List Record) (w : Wal) (e : LogError)
      → IsLog w st ls
      → Wrote st ls rs (w, some e)
  none_written {st} {ls} rs w e h = record {
    count = 0;
    holds = subst (λ t. IsLog w st t) (sym (append-nil ls)) h;
    whole = λ o. cc;
  }

  -- A write of the record `x` fails with `bs` of its frame in the file.
  failed :
      {st : List (ℕ × List Record)} {ls : List Record} (rs : List Record) (w : Wal) (os : Os)
      (x : Record) (bs : Bytes)
      → IsRecord x
      → IsCut x bs
      → w.sealed ≡ map framed st
      → w.content ≡ frames crc ls ++ bs
      → w.size ≡ length (frames crc ls)
      → AllStored st
      → All IsRecord ls
      → Wrote st ls (x ∷ rs) (undo_partial w os)
  unfolding undo_partial
  failed {st} {ls} rs w os x bs h c sealed content sized stored written =
      let back : take w.size w.content ≡ frames crc ls ++ [] =
        ap₂ take sized content
        ∙ take-append (frames crc ls) bs _ refl
        ∙ sym (append-nil (frames crc ls)) in
      elim (Bool-cases (w.usable && os.truncates)) [
        | inl cut ↦ elim (Bool-cases os.seeks) [
          | inl sought ↦
              rw (cut, sought)
                (none_written (x ∷ rs) (record w { content = take w.size w.content }) write_failed
                  (record {
                    tail = [];
                    in_sealed = sealed;
                    in_content = back;
                    clean = λ b. (refl, sized);
                    cut = inl refl;
                    stored = stored;
                    written = written;
                  }))
          | inr lost ↦
              rw (cut, lost)
                (none_written (x ∷ rs) (record w { content = take w.size w.content; broken = true })
                  undo_failed
                  (record {
                    tail = [];
                    in_sealed = sealed;
                    in_content = back;
                    clean = λ b. cc;
                    cut = inl refl;
                    stored = stored;
                    written = written;
                  }))
        ]
        | inr uncut ↦ elim (cut-cases x bs h c) [
          | inl all ↦ rw uncut (record {
            count = 1;
            holds = record {
              tail = [];
              in_sealed = sealed;
              in_content =
                  content
                  ∙ ap (λ t. frames crc ls ++ t) all
                  ∙ sym (frames-snoc ls x)
                  ∙ sym (append-nil (frames crc (ls ++ x ∷ [])));
              clean = λ b. cc;
              cut = inl refl;
              stored = stored;
              written = All-snoc IsRecord ls x written h;
            };
            whole = λ o. cc;
          })
          | inr torn ↦ rw uncut (
              none_written (x ∷ rs) (record w { broken = true }) undo_failed
                (record {
                  tail = bs;
                  in_sealed = sealed;
                  in_content = content;
                  clean = λ b. cc;
                  cut = inr torn;
                  stored = stored;
                  written = written;
                }))
        ]
      ]

  one_more :
      {st : List (ℕ × List Record)} (ls : List Record) (x : Record) {rs : List Record} {o : Outcome}
      → Wrote st (ls ++ x ∷ []) rs o
      → Wrote st ls (x ∷ rs) o
  one_more {st} ls x {rs} {o} w = record {
    count = suc w.count;
    holds = subst (λ t. IsLog o.0 st t) (append_assoc ls (x ∷ []) (take w.count rs)) w.holds;
    whole = λ e. ap (λ t. x ∷ t) (w.whole e);
  }

  pub write_records-Wrote :
      {st : List (ℕ × List Record)} (ls rs : List Record) (w : Wal) (os : Os) (i : ℕ)
      → All IsRecord rs
      → w.broken ≡ false
      → IsLog w st ls
      → Wrote st ls rs (write_records crc w os i rs)
  unfolding write_records
  write_records-Wrote {st} ls [] w os i h b l = record {
    count = 0;
    holds = subst (λ t. IsLog w st t) (sym (append-nil ls)) l;
    whole = λ e. refl;
  }
  write_records-Wrote {st} ls (x ∷ rs) w os i (a, h) b l =
      let (none_left, sized) = l.clean b in
      let content : w.content ≡ frames crc ls =
        l.in_content ∙ ap (λ t. frames crc ls ++ t) none_left ∙ append-nil (frames crc ls) in
      elim (write-cases w os i (header crc x)) [
        | inr (k, e) ↦ rw e (
            failed rs (record w { content = w.content ++ take k (header crc x) }) os x _ a
              (IsCut-header x k) l.in_sealed (ap (λ t. t ++ take k (header crc x)) content) sized
              l.stored l.written)
        | inl e ↦
            let w' = record w { content = w.content ++ header crc x } in
            rw e (elim (write-cases w' os (i + 1) x.payload) [
              | inr (k, e') ↦ rw e' (
                  failed rs (record w' { content = w'.content ++ take k x.payload }) os x _ a
                    (IsCut-payload x k) l.in_sealed
                    (ap (λ t. (t ++ header crc x) ++ take k x.payload) content
                      ∙ append_assoc (frames crc ls) (header crc x) (take k x.payload))
                    sized l.stored l.written)
              | inl e' ↦
                  let w'' = record w' {
                    content = w'.content ++ x.payload;
                    size = w.size + (header_size + length x.payload);
                  } in
                  let now : w''.content ≡ frames crc (ls ++ x ∷ []) =
                    unfold frame in
                    ap (λ t. (t ++ header crc x) ++ x.payload) content
                    ∙ append_assoc (frames crc ls) (header crc x) x.payload
                    ∙ sym (frames-snoc ls x) in
                  let more = write_records-Wrote (ls ++ x ∷ []) rs w'' os (i + 2) h b (record {
                    tail = [];
                    in_sealed = l.in_sealed;
                    in_content = now ∙ sym (append-nil (frames crc (ls ++ x ∷ [])));
                    clean = λ c. (refl, omega (arith, sized, frames-length ls x));
                    cut = inl refl;
                    stored = l.stored;
                    written = All-snoc IsRecord ls x l.written a;
                  }) in
                  rw e' (one_more ls x more)
            ])
      ]
