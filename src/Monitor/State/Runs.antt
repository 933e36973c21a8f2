-- ===== src/Monitor/State/Runs.antt =====
-- What holds of a group over a whole sequence of observations, as the scheduler and the backtest
-- replay it.
use ozymandias.Base.{ℕ, ◌+◌, ◌≤◌, ◌≡◌, refl, true, if◌then◌else◌, arith, List, [], ◌∷◌, All}
use ozymandias.Base.Int.{pos, pos_part}
use ozymandias.Monitor.Levels.{breach}
use ozymandias.Monitor.State.{
  alert, Group, Observation, Config, Notify, notify_none, notify_transition, notify_renotify,
  Outcome, observe, notice, step, valued_status, is_notice,
}
use ozymandias.Monitor.State.Steps.{step_renotify}

abbrev pub run : Config → Group → List Observation → Group
run c g [] = g
run c g (o ∷ os) = run c (step g o c).0 os

abbrev pub outcomes : Config → Group → List Observation → List Outcome
outcomes c g [] = []
outcomes c g (o ∷ os) = (step g o c).1 ∷ outcomes c (step g o c).0 os

-- A value that has not fallen past critical_recovery.
abbrev pub InBand : Config → Observation → Type 0
InBand c o = (o.present ≡ true) × (breach c.levels o.value c.levels.critical_recovery ≡ true)

abbrev pub Silent : Outcome → Type 0
Silent r = r.notify ≡ notify_none

step-InBand :
    (g : Group) (o : Observation) (c : Config)
    → c.renotify ≡ pos 0
    → g.status ≡ alert
    → InBand c o
    → ((step g o c).1.notify ≡ notify_none) × ((step g o c).0.status ≡ alert)
unfolding step observe notice valued_status
step-InBand g o c r h b = ground arith

-- With renotification off, values that stay past critical_recovery notify nobody of an alerting
-- group and leave it alerting, however they cross the critical level.
pub band_is_quiet :
    (c : Config) (g : Group) (os : List Observation)
    → c.renotify ≡ pos 0
    → g.status ≡ alert
    → All (InBand c) os
    → All Silent (outcomes c g os) × ((run c g os).status ≡ alert)
band_is_quiet c g [] r h b = (tt, h)
band_is_quiet c g (o ∷ os) r h b =
    let here = step-InBand g o c r h b.0 in
    let rest = band_is_quiet c (step g o c).0 os r here.1 b.1 in ((here.0, rest.0), rest.1)

-- The notifications that are sent, with their times.
abbrev pub notices : Config → Group → List Observation → List (ℕ × Notify)
notices c g [] = []
notices c g (o ∷ os) =
    let rest = notices c (step g o c).0 os in
    if is_notice (step g o c).1.notify then (o.now, (step g o c).1.notify) ∷ rest else rest

-- Each repeated notification is at least `r` later than the one before it.
abbrev pub Spaced : ℕ → ℕ → List (ℕ × Notify) → Type 0
Spaced r last [] = Unit {0}
Spaced r last ((t, notify_renotify) ∷ ns) = (last + r ≤ t) × Spaced r t ns
Spaced r last ((t, _) ∷ ns) = Spaced r t ns

last_notified-step :
    (g : Group) (o : Observation) (c : Config)
    → (step g o c).0.last_notified
      ≡ (if is_notice (step g o c).1.notify then o.now else g.last_notified)
unfolding step
last_notified-step g o c = refl

Spaced-cons :
    (r last t : ℕ) (n : Notify) (ns : List (ℕ × Notify))
    → (n ≡ notify_renotify → last + r ≤ t)
    → Spaced r (if is_notice n then t else last) ns
    → Spaced r last (if is_notice n then (t, n) ∷ ns else ns)
Spaced-cons r last t notify_none ns h s = s
Spaced-cons r last t notify_transition ns h s = s
Spaced-cons r last t notify_renotify ns h s = (h refl, s)

-- Over any observations, a notification that only repeats a status is sent at least `Renotify`
-- after the notification before it, the one that the state remembers included.
pub renotify-Spaced :
    (c : Config) (g : Group) (os : List Observation)
    → Spaced (pos_part c.renotify) g.last_notified (notices c g os)
renotify-Spaced c g [] = tt
renotify-Spaced c g (o ∷ os) =
    Spaced-cons (pos_part c.renotify) g.last_notified o.now (step g o c).1.notify _
      (λ e. (step_renotify g o c e).3)
      (rw (← last_notified-step g o c) (renotify-Spaced c (step g o c).0 os))
