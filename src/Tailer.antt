-- ===== src/Tailer.antt =====
-- internal/agent/tailer/multiline.go: lines of a log are joined into events. The pattern that starts an
-- event is a function; a time is a number of nanoseconds.
pub mod Groups
pub mod Advance
pub mod Run
mod Tests
use ozymandias.Base.{
  ℕ, ◌+◌, ◌-◌, Bool, true, false, not, ◌&&◌, ◌||◌, Option, none, some, List, [], ◌∷◌, ◌++◌, length,
  if◌then◌else◌, ltb, leb,
}
use ozymandias.Base.Bytes.{Bytes}

abbrev pub max_multiline_lines : ℕ
max_multiline_lines = 500

abbrev pub max_multiline_bytes : ℕ
max_multiline_bytes = 262144

abbrev pub multiline_flush_after : ℕ
multiline_flush_after = 1000000000

pub record Event : Type 0 where
  pub text : Bytes
  pub end : ℕ
  pub stderr : Bool

pub record Multiline : Type 0 where
  pub start : Option (Bytes → Bool)
  pub lines : List Bytes
  pub bytes : ℕ
  pub end : ℕ
  pub touched : ℕ
  pub stderr : Bool

unfoldable pub new_multiline : Option (Bytes → Bool) → Multiline
new_multiline start = record {
  start = start;
  lines = [];
  bytes = 0;
  end = 0;
  touched = 0;
  stderr = false;
}

-- `strings.Join(lines, "\n")`
unfoldable pub join : List Bytes → Bytes
join [] = []
join (s ∷ []) = s
join (s ∷ t ∷ ss) = s ++ 10 ∷ join (t ∷ ss)

abbrev pub is_empty : List Bytes → Bool
is_empty [] = true
is_empty (s ∷ ss) = false

unfoldable pub reset : Multiline → Multiline
reset m = record m { lines = []; bytes = 0 }

-- `take`: the event, and what is left.
unfoldable pub taken : Multiline → Event
unfolding join
taken m = record { text = join m.lines; end = m.end; stderr = m.stderr }

-- The pending event is complete before a line is added.
unfoldable pub is_complete : (Bytes → Bool) → Bytes → Multiline → Bool
is_complete matches text m =
    not (is_empty m.lines)
    && (matches text
        || (leb max_multiline_lines (length m.lines)
            || ltb max_multiline_bytes (m.bytes + length text)))

-- The line joins the pending event, or begins one.
unfoldable pub joined : Bytes → ℕ → ℕ → Bool → Multiline → Multiline
joined text end now stderr m = record m {
  lines = m.lines ++ text ∷ [];
  bytes = m.bytes + (length text + 1);
  end = end;
  touched = now;
  stderr = if is_empty m.lines then stderr else m.stderr;
}

-- `add`
unfoldable pub add : Bytes → ℕ → ℕ → Bool → Multiline → List Event × Multiline
unfolding is_complete joined taken reset
add text end now stderr m = elim (m.start) [
  | none ↦ (record { text = text; end = end; stderr = stderr } ∷ [], m)
  | some matches ↦
      if is_complete matches text m
      then (taken m ∷ [], joined text end now stderr (reset m))
      else ([], joined text end now stderr m)
]

-- `flush`; `Sub` of a time that is not later is not positive.
unfoldable pub flush : ℕ → Bool → Multiline → List Event × Multiline
unfolding taken reset
flush now force m =
    if is_empty m.lines || (not force && ltb (now - m.touched) multiline_flush_after)
    then ([], m)
    else (taken m ∷ [], reset m)
