-- ===== src/Tailer/Groups.antt =====
-- Events are the lines in consecutive groups, none lost, repeated or out of order.
use ozymandias.Base.{
  ℕ, ◌+◌, ◌≤◌, ◌≡◌, ◌⊎◌, inl, inr, refl, sym, ap, ◌∙◌, Bool, true, false, not, ◌&&◌, ◌||◌, Option,
  none, some, List, [], ◌∷◌, ◌++◌, map, length, All, All-snoc, ltb, leb, arith, length-append,
}
use ozymandias.Base.Bytes.{Bytes}
use ozymandias.Tailer.{
  max_multiline_lines, max_multiline_bytes, Event, Multiline, join, is_empty, reset, taken,
  is_complete, joined, add, flush,
}

pub record Line : Type 0 where
  pub text : Bytes
  pub end : ℕ
  pub stderr : Bool

-- The calls of a tailer: a line at a time, or a tick of its clock, forced or not.
pub data Call : Type 0 where
  line : Line → ℕ → Call
  tick : ℕ → Bool → Call

abbrev pub lines_of : List Call → List Line
lines_of [] = []
lines_of (line l now ∷ cs) = l ∷ lines_of cs
lines_of (tick now force ∷ cs) = lines_of cs

abbrev pub call : Call → Multiline → List Event × Multiline
call (line l now) m = add l.text l.end now l.stderr m
call (tick now force) m = flush now force m

-- The events of calls that end with a forced flush.
abbrev pub events : List Call → ℕ → Multiline → List Event
events [] now m = (flush now true m).0
events (c ∷ cs) now m = let (es, m') = call c m in es ++ events cs now m'

abbrev pub texts : List Line → List Bytes
texts g = map (λ (l : Line). l.text) g

-- The offset of the last of lines.
abbrev pub last_end : ℕ → List Line → ℕ
last_end n [] = n
last_end n (l ∷ ls) = last_end l.end ls

-- The lines of groups, in order; a group is a line and those that continue it.
abbrev pub ungrouped : List (Line × List Line) → List Line
ungrouped [] = []
ungrouped (g ∷ gs) = g.0 ∷ (g.1 ++ ungrouped gs)

-- The event of a line and those that continue it.
abbrev pub event_of : Line × List Line → Event
event_of g = record {
  text = join (texts (g.0 ∷ g.1));
  end = last_end g.0.end g.1;
  stderr = g.0.stderr;
}

-- A line starts an event: it matches the pattern, or there is none.
abbrev pub starts : Option (Bytes → Bool) → Bytes → Bool
starts none text = true
starts (some matches) text = matches text

-- Further lines do not start an event, and more than one keep to the limits.
pub record IsGroup (start : Option (Bytes → Bool)) (g : Line × List Line) : Type 0 where
  pub continues : All (λ l. starts start l.text ≡ false) g.1
  pub few : length g.1 + 1 ≤ max_multiline_lines
  pub small : (g.1 ≡ []) ⊎ (length (join (texts (g.0 ∷ g.1))) ≤ max_multiline_bytes)

pub size : List Line → ℕ
size [] = 0
size (l ∷ ls) = length l.text + 1 + size ls

length-join : (l : Line) (ls : List Line) → length (join (texts (l ∷ ls))) + 1 ≡ size (l ∷ ls)
unfolding join size
length-join l [] = omega arith
length-join l (k ∷ ls) =
    omega (arith, length-join k ls, length-append l.text (10 ∷ join (texts (k ∷ ls))))

size-snoc : (ls : List Line) (l : Line) → size (ls ++ l ∷ []) ≡ size ls + (length l.text + 1)
unfolding size
size-snoc [] l = omega arith
size-snoc (k ∷ ls) l = omega (arith, size-snoc ls l)

texts-snoc : (ls : List Line) (l : Line) → texts (ls ++ l ∷ []) ≡ texts ls ++ l.text ∷ []
texts-snoc [] l = refl
texts-snoc (k ∷ ls) l = ap (λ ts. k.text ∷ ts) (texts-snoc ls l)

last_end-snoc : (n : ℕ) (ls : List Line) (l : Line) → last_end n (ls ++ l ∷ []) ≡ l.end
last_end-snoc n [] l = refl
last_end-snoc n (k ∷ ls) l = last_end-snoc k.end ls l

length-texts : (ls : List Line) → length (texts ls) ≡ length ls
length-texts [] = refl
length-texts (l ∷ ls) = omega (arith, length-texts ls)

-- The pending event is of a group.
pub record IsFilled (start : Option (Bytes → Bool)) (m : Multiline) (g : Line × List Line)
    : Type 0 where
  pub joins : (matches : Bytes → Bool) × (start ≡ some matches)
  pub lines : m.lines ≡ texts (g.0 ∷ g.1)
  pub bytes : m.bytes ≡ size (g.0 ∷ g.1)
  pub end : m.end ≡ last_end g.0.end g.1
  pub stderr : m.stderr ≡ g.0.stderr
  pub group : IsGroup start g

-- What is pending, of the lines that no event has yet.
abbrev pub Holds : Option (Bytes → Bool) → Multiline → List Line → Type 0
Holds start m [] = (m.start ≡ start) × (m.lines ≡ []) × (m.bytes ≡ 0)
Holds start m (l ∷ ls) = (m.start ≡ start) × IsFilled start m (l, ls)

pub taken-event_of :
    (start : Option (Bytes → Bool)) (m : Multiline) (g : Line × List Line)
    → IsFilled start m g
    → taken m ≡ event_of g
unfolding taken
taken-event_of start m g f =
    let a = f.lines in let b = f.end in let c = f.stderr in rw (a, b, c) refl

pub reset-Holds :
    (start : Option (Bytes → Bool)) (m : Multiline) → m.start ≡ start → Holds start (reset m) []
unfolding reset
reset-Holds start m e = (e, refl, refl)

pub joined-first :
    (matches : Bytes → Bool) (m : Multiline) (l : Line) (now : ℕ)
    → Holds (some matches) m []
    → Holds (some matches) (joined l.text l.end now l.stderr m) (l ∷ [])
unfolding joined size
joined-first matches m l now (e, none_yet, no_bytes) = (
  e,
  record {
    joins = (matches, refl);
    lines = rw none_yet refl;
    bytes = omega (arith, no_bytes);
    end = refl;
    stderr = rw none_yet refl;
    group = record { continues = tt; few = omega arith; small = inl refl };
  },
)

pub joined-next :
    (matches : Bytes → Bool) (m : Multiline) (g : Line × List Line) (l : Line) (now : ℕ)
    → m.start ≡ some matches
    → IsFilled (some matches) m g
    → is_complete matches l.text m ≡ false
    → Holds (some matches) (joined l.text l.end now l.stderr m) (g.0 ∷ (g.1 ++ l ∷ []))
unfolding joined is_complete
joined-next matches m g l now e f open_ =
    let ls = f.lines in
    let capped : (matches l.text
          || (leb max_multiline_lines (length m.lines)
              || ltb max_multiline_bytes (m.bytes + length l.text)))
        ≡ false =
      ap
        (λ ts.
          not (is_empty ts)
          && (matches l.text
              || (leb max_multiline_lines (length m.lines)
                  || ltb max_multiline_bytes (m.bytes + length l.text))))
        (sym ls)
      ∙ open_ in
    let unmatched : matches l.text ≡ false = ground arith in
    let n : length m.lines ≡ length g.1 + 1 = ap length ls ∙ omega (arith, length-texts g.1) in
    let few : length g.1 + 1 + 1 ≤ max_multiline_lines = ground (arith, n) in
    let small : m.bytes + length l.text ≤ max_multiline_bytes = ground arith in
    (
      e,
      record {
        joins = (matches, refl);
        lines = rw ls (ap (λ ts. g.0.text ∷ ts) (sym (texts-snoc g.1 l)));
        bytes = omega (arith, f.bytes, size-snoc (g.0 ∷ g.1) l);
        end = sym (last_end-snoc g.0.end g.1 l);
        stderr = rw ls f.stderr;
        group = record {
          continues =
              All-snoc (λ k. starts (some matches) k.text ≡ false) g.1 l f.group.continues
                unmatched;
          few = omega (arith, few, length-append g.1 (l ∷ []));
          small = inr (
              omega
                (arith, small, f.bytes, length-join g.0 (g.1 ++ l ∷ []), size-snoc (g.0 ∷ g.1) l));
        };
      },
    )
