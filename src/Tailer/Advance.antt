-- ===== src/Tailer/Advance.antt =====
-- One call of a tailer: it emits events of groups of the lines it has, and keeps the rest.
use ozymandias.Base.{
  ℕ, ◌-◌, ◌≡◌, refl, sym, ap, ◌∙◌, Bool, true, false, not, ◌&&◌, ◌||◌, Option, none, some, List, [],
  ◌∷◌, ◌++◌, map, All, if◌then◌else◌, ltb, inl, inr, Bool-cases, arith,
}
use mathlib.Core.Path.{subst}
use mathlib.Core.List.{append-nil}
use ozymandias.Base.Bytes.{Bytes}
use ozymandias.Tailer.{
  multiline_flush_after, Event, Multiline, is_empty, reset, taken, is_complete, joined, add, flush,
}
use ozymandias.Tailer.Groups.{
  Line, ungrouped, event_of, IsGroup, IsFilled, Holds, taken-event_of, reset-Holds, joined-first,
  joined-next,
}

-- A call emits events of groups of the lines it has, and keeps the rest pending.
pub record IsAdvance (start : Option (Bytes → Bool)) (had : List Line)
    (after : List Event × Multiline) : Type 0 where
  pub groups : List (Line × List Line)
  pub rest : List Line
  pub emitted : after.0 ≡ map event_of groups
  pub kept : had ≡ ungrouped groups ++ rest
  pub grouped : All (IsGroup start) groups
  pub pending : Holds start after.1 rest

emit-IsAdvance :
    (start : Option (Bytes → Bool)) (m : Multiline) (g : Line × List Line)
    → IsFilled start m g
    → (m' : Multiline) (rest : List Line) → Holds start m' rest
    → IsAdvance start (g.0 ∷ (g.1 ++ rest)) (taken m ∷ [], m')
emit-IsAdvance start m g f m' rest h = record {
  groups = g ∷ [];
  rest = rest;
  emitted = ap (λ e. e ∷ []) (taken-event_of start m g f);
  kept = ap (λ ls. g.0 ∷ ls ++ rest) (sym (append-nil g.1));
  grouped = (f.group, tt);
  pending = h;
}

stay-IsAdvance :
    (start : Option (Bytes → Bool)) (m : Multiline) (ls : List Line)
    → Holds start m ls
    → IsAdvance start ls ([], m)
stay-IsAdvance start m ls h = record {
  groups = [];
  rest = ls;
  emitted = refl;
  kept = refl;
  grouped = tt;
  pending = h;
}

emit_all :
    (start : Option (Bytes → Bool)) (m : Multiline) (ls : List Line) (early : Bool)
    → Holds start m ls
    → (is_empty m.lines || early) ≡ false
    → IsAdvance start ls (taken m ∷ [], reset m)
emit_all start m [] early (e, no_lines, no_bytes) due =
    let d : true ≡ false = ap (λ ts. is_empty ts || early) (sym no_lines) ∙ due in absurd (cc)
emit_all start m (l ∷ ls) early (e, f) due =
    subst (λ ks. IsAdvance start (l ∷ ks) (taken m ∷ [], reset m)) (append-nil ls)
      (emit-IsAdvance start m (l, ls) f (reset m) [] (reset-Holds start m e))

first-is_complete :
    (matches : Bytes → Bool) (text : Bytes) (m : Multiline)
    → m.lines ≡ []
    → is_complete matches text m ≡ false
unfolding is_complete
first-is_complete matches text m no_lines = ground (arith, ap is_empty no_lines)

-- What `add` gives, of the pattern.
abbrev add_from : Line → ℕ → Multiline → Option (Bytes → Bool) → List Event × Multiline
add_from l now m start = elim start [
  | none ↦ (event_of (l, []) ∷ [], m)
  | some matches ↦
      if is_complete matches l.text m
      then (taken m ∷ [], joined l.text l.end now l.stderr (reset m))
      else ([], joined l.text l.end now l.stderr m)
]

pub flush-IsAdvance :
    (start : Option (Bytes → Bool)) (m : Multiline) (ls : List Line) (now : ℕ) (force : Bool)
    → Holds start m ls
    → IsAdvance start ls (flush now force m)
unfolding flush
flush-IsAdvance start m ls now force h =
    let early = not force && ltb (now - m.touched) multiline_flush_after in
    let after : Bool → List Event × Multiline =
      λ b. if b then ([], m) else (taken m ∷ [], reset m) in
    elim (Bool-cases (is_empty m.lines || early)) [
      | inl stays ↦
          subst (λ a. IsAdvance start ls a) (ap after (sym stays)) (stay-IsAdvance start m ls h)
      | inr due ↦
          subst (λ a. IsAdvance start ls a) (ap after (sym due)) (emit_all start m ls early h due)
    ]

add-none :
    (m : Multiline) (l : Line) (now : ℕ)
    → m.start ≡ none
    → (event_of (l, []) ∷ [], m) ≡ add l.text l.end now l.stderr m
unfolding add
add-none m l now e = ap (add_from l now m) (sym e)

add_complete :
    (matches : Bytes → Bool) (m : Multiline) (l : Line) (now : ℕ)
    → m.start ≡ some matches
    → is_complete matches l.text m ≡ true
    → (taken m ∷ [], joined l.text l.end now l.stderr (reset m)) ≡ add l.text l.end now l.stderr m
unfolding add
add_complete matches m l now e c =
    ap
      (λ b.
        if b
        then (taken m ∷ [], joined l.text l.end now l.stderr (reset m))
        else ([], joined l.text l.end now l.stderr m))
      (sym c)
    ∙ ap (add_from l now m) (sym e)

add_open :
    (matches : Bytes → Bool) (m : Multiline) (l : Line) (now : ℕ)
    → m.start ≡ some matches
    → is_complete matches l.text m ≡ false
    → ([], joined l.text l.end now l.stderr m) ≡ add l.text l.end now l.stderr m
unfolding add
add_open matches m l now e c =
    ap
      (λ b.
        if b
        then (taken m ∷ [], joined l.text l.end now l.stderr (reset m))
        else ([], joined l.text l.end now l.stderr m))
      (sym c)
    ∙ ap (add_from l now m) (sym e)

pub add-IsAdvance :
    (start : Option (Bytes → Bool)) (m : Multiline) (ls : List Line) (l : Line) (now : ℕ)
    → Holds start m ls
    → IsAdvance start (ls ++ l ∷ []) (add l.text l.end now l.stderr m)
add-IsAdvance none m [] l now h =
    subst (λ a. IsAdvance none (l ∷ []) a) (add-none m l now h.0)
      (record {
        groups = (l, []) ∷ [];
        rest = [];
        emitted = refl;
        kept = refl;
        grouped = (record { continues = tt; few = omega arith; small = inl refl }, tt);
        pending = h;
      })
add-IsAdvance none m (k ∷ ls) l now (e, f) = let j = f.joins.1 in absurd (cc)
add-IsAdvance (some matches) m [] l now h =
    subst (λ a. IsAdvance (some matches) (l ∷ []) a)
      (add_open matches m l now h.0 (first-is_complete matches l.text m h.1))
      (stay-IsAdvance (some matches) (joined l.text l.end now l.stderr m) (l ∷ [])
        (joined-first matches m l now h))
add-IsAdvance (some matches) m (k ∷ ls) l now (e, f) =
    elim (Bool-cases (is_complete matches l.text m)) [
      | inl complete ↦
          subst (λ a. IsAdvance (some matches) (k ∷ (ls ++ l ∷ [])) a)
            (add_complete matches m l now e complete)
            (emit-IsAdvance (some matches) m (k, ls) f (joined l.text l.end now l.stderr (reset m))
              (l ∷ []) (joined-first matches (reset m) l now (reset-Holds (some matches) m e)))
      | inr open_ ↦
          subst (λ a. IsAdvance (some matches) (k ∷ (ls ++ l ∷ [])) a)
            (add_open matches m l now e open_)
            (stay-IsAdvance (some matches) (joined l.text l.end now l.stderr m) (k ∷ (ls ++ l ∷ []))
              (joined-next matches m (k, ls) l now e f open_))
    ]
