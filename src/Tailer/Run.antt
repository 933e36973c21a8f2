-- ===== src/Tailer/Run.antt =====
-- Whole runs of a tailer: every line is in exactly one event.
use ozymandias.Base.{
  ℕ, ◌-◌, ◌≡◌, refl, sym, ap, ◌∙◌, Bool, true, not, ◌&&◌, ◌||◌, Option, List, [], ◌∷◌, ◌++◌, map,
  All, if◌then◌else◌, ltb,
}
use mathlib.Core.Path.{subst}
use mathlib.Core.List.{append_assoc, append-nil}
use ozymandias.Base.Bytes.{Bytes}
use ozymandias.Tailer.{
  multiline_flush_after, Event, Multiline, new_multiline, is_empty, reset, taken, add, flush,
}
use ozymandias.Tailer.Groups.{
  Line, Call, line, tick, lines_of, events, ungrouped, event_of, IsGroup, Holds, taken-event_of,
}
use ozymandias.Tailer.Advance.{IsAdvance, flush-IsAdvance, add-IsAdvance}

-- The events are those of groups, which are all lines.
pub record IsGrouped (start : Option (Bytes → Bool)) (ls : List Line) (es : List Event)
    : Type 0 where
  pub groups : List (Line × List Line)
  pub emitted : es ≡ map event_of groups
  pub all_lines : ls ≡ ungrouped groups
  pub grouped : All (IsGroup start) groups

ungrouped-append :
    (gs hs : List (Line × List Line)) → ungrouped (gs ++ hs) ≡ ungrouped gs ++ ungrouped hs
ungrouped-append [] hs = refl
ungrouped-append (g ∷ gs) hs =
    rw (ungrouped-append gs hs)
      (ap (λ ls. g.0 ∷ ls) (sym (append_assoc g.1 (ungrouped gs) (ungrouped hs))))

map-append :
    (gs hs : List (Line × List Line)) → map event_of (gs ++ hs) ≡ map event_of gs ++ map event_of hs
map-append [] hs = refl
map-append (g ∷ gs) hs = ap (λ es. event_of g ∷ es) (map-append gs hs)

All-groups :
    (start : Option (Bytes → Bool)) (gs hs : List (Line × List Line))
    → All (IsGroup start) gs
    → All (IsGroup start) hs
    → All (IsGroup start) (gs ++ hs)
All-groups start [] hs h k = k
All-groups start (g ∷ gs) hs (a, h) k = (a, All-groups start gs hs h k)

advance-IsGrouped :
    (start : Option (Bytes → Bool)) (had more : List Line) (after : List Event × Multiline)
    → (a : IsAdvance start had after) (es : List Event) → IsGrouped start (a.rest ++ more) es
    → IsGrouped start (had ++ more) (after.0 ++ es)
advance-IsGrouped start had more after a es r =
    let kept = a.kept in
    let emitted = a.emitted in
    let later = r.emitted in
    let lines = r.all_lines in
    record {
      groups = a.groups ++ r.groups;
      emitted =
          ap (λ t. t ++ es) emitted
          ∙ (ap (λ t. map event_of a.groups ++ t) later ∙ sym (map-append a.groups r.groups));
      all_lines =
          ap (λ t. t ++ more) kept
          ∙ (append_assoc (ungrouped a.groups) a.rest more
              ∙ (ap (λ t. ungrouped a.groups ++ t) lines
                  ∙ sym (ungrouped-append a.groups r.groups)));
      grouped = All-groups start a.groups r.groups a.grouped r.grouped;
    }

-- The events of a forced flush, of the lines.
abbrev forced : Multiline → ℕ → List Bytes → List Event
forced m now ts =
    let after : List Event × Multiline =
      if is_empty ts || (not true && ltb (now - m.touched) multiline_flush_after)
      then ([], m)
      else (taken m ∷ [], reset m) in
    after.0

-- A forced flush leaves nothing.
forced-IsGrouped :
    (start : Option (Bytes → Bool)) (m : Multiline) (ls : List Line) (now : ℕ)
    → Holds start m ls
    → IsGrouped start ls (flush now true m).0
unfolding flush
forced-IsGrouped start m [] now (e, no_lines, no_bytes) = record {
  groups = [];
  emitted = ap (forced m now) no_lines;
  all_lines = refl;
  grouped = tt;
}
forced-IsGrouped start m (l ∷ ls) now (e, f) = record {
  groups = (l, ls) ∷ [];
  emitted = ap (forced m now) f.lines ∙ ap (λ e. e ∷ []) (taken-event_of start m (l, ls) f);
  all_lines = ap (λ t. l ∷ t) (sym (append-nil ls));
  grouped = (f.group, tt);
}

calls-IsGrouped :
    (start : Option (Bytes → Bool)) (cs : List Call) (now : ℕ) (m : Multiline) (ls : List Line)
    → Holds start m ls
    → IsGrouped start (ls ++ lines_of cs) (events cs now m)
calls-IsGrouped start [] now m ls h =
    subst (λ t. IsGrouped start t (flush now true m).0) (sym (append-nil ls))
      (forced-IsGrouped start m ls now h)
calls-IsGrouped start (line l at ∷ cs) now m ls h =
    let a = add-IsAdvance start m ls l at h in
    let rest = calls-IsGrouped start cs now (add l.text l.end at l.stderr m).1 a.rest a.pending in
    subst (λ t. IsGrouped start t (events (line l at ∷ cs) now m))
      (append_assoc ls (l ∷ []) (lines_of cs))
      (advance-IsGrouped start (ls ++ l ∷ []) (lines_of cs) (add l.text l.end at l.stderr m) a
        (events cs now (add l.text l.end at l.stderr m).1) rest)
calls-IsGrouped start (tick at force ∷ cs) now m ls h =
    let a = flush-IsAdvance start m ls at force h in
    let rest = calls-IsGrouped start cs now (flush at force m).1 a.rest a.pending in
    advance-IsGrouped start ls (lines_of cs) (flush at force m) a
      (events cs now (flush at force m).1) rest

-- However lines and flushes follow each other, once a flush is forced at the end the events are
-- the lines in consecutive groups: no line is lost, repeated or out of order. A group has at most 500
-- lines, and a text of at most 256 KiB unless it is one line; only its first line starts an event.
pub multiline-IsGrouped :
    (start : Option (Bytes → Bool)) (cs : List Call) (now : ℕ)
    → IsGrouped start (lines_of cs) (events cs now (new_multiline start))
unfolding new_multiline
multiline-IsGrouped start cs now =
    calls-IsGrouped start cs now (new_multiline start) [] (refl, refl, refl)
