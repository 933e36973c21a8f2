-- ===== src/Tailer/Tests.antt =====
-- A traceback of two lines behind an error, and a line after it. Lines that begin with a space continue.
use ozymandias.Base.{◌≡◌, refl, Bool, true, false, not, ◌==◌, some, List, [], ◌∷◌}
use ozymandias.Base.Bytes.{Bytes}
use ozymandias.Tailer.{new_multiline, add, flush, join, taken, is_complete, joined, reset}
use ozymandias.Tailer.Groups.{Line, Call, line, tick, lines_of, events, event_of}
use ozymandias.Tailer.Run.{IsGrouped, multiline-IsGrouped}

no_space : Bytes → Bool
no_space [] = false
no_space (b ∷ s) = not (b == 32)

abbrev error : Line
error = record { text = 69 ∷ []; end = 2; stderr = true }

abbrev frame : Line
frame = record { text = 32 ∷ 102 ∷ []; end = 5; stderr = false }

abbrev ready : Line
ready = record { text = 114 ∷ []; end = 7; stderr = false }

abbrev calls : List Call
calls = line error 10 ∷ tick 20 false ∷ line frame 30 ∷ line ready 40 ∷ []

two_events :
    events calls 50 (new_multiline (some no_space))
    ≡ event_of (error, frame ∷ []) ∷ event_of (ready, []) ∷ []
unfolding new_multiline add flush join taken is_complete joined reset no_space
two_events = refl

multiline-IsGrouped_example :
    IsGrouped (some no_space) (lines_of calls) (events calls 50 (new_multiline (some no_space)))
multiline-IsGrouped_example = multiline-IsGrouped (some no_space) calls 50
