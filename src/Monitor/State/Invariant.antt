-- ===== src/Monitor/State/Invariant.antt =====
-- What holds of every group that steps can produce from a new one, and what an alert proves of the
-- values before it.
use ozymandias.Base.{max, ℕ, ◌+◌, ◌≤◌, ◌≡◌, ◌≢◌, true, if◌then◌else◌, arith, List, [], ◌∷◌, ◌++◌}
use native.Mathlib.Nat.{le_trans}
use ozymandias.Base.Int.{pos_part}
use ozymandias.Monitor.Levels.{breach}
use ozymandias.Monitor.State.{
  alert, no_data, Group, new, Observation, Config, next_breaches, min_fail, observe, step,
  valued_status, silent_status,
}
use ozymandias.Monitor.State.Runs.{run}

-- The groups that exist at a time: a new one, or one stepped at a later time. The monitor may be
-- edited or muted between two steps.
pub data Reach : ℕ → Group → Type 0 where
  born : (t : ℕ) → Reach t (new t)
  next :
      {t : ℕ} {g : Group}
      → Reach t g
      → (o : Observation) (c : Config) → t ≤ o.now
      → Reach o.now (step g o c).0

pub record IsValid (t : ℕ) (g : Group) : Type 0 where
  pub since_past : g.since ≤ t
  pub eval_past : g.last_eval ≤ t
  pub notified_past : g.last_notified ≤ t
  pub silent_had_data : g.status ≡ no_data → g.last_data ≢ 0
  pub silent_no_breach : g.status ≡ no_data → g.breaches ≡ 0

new-IsValid : (t : ℕ) → IsValid t (new t)
unfolding new
new-IsValid t = ground arith

step-IsValid :
    {t : ℕ} {g : Group} (o : Observation) (c : Config)
    → IsValid t g
    → t ≤ o.now
    → IsValid o.now (step g o c).0
unfolding step observe silent_status valued_status
step-IsValid o c v h = ground arith

-- Every group that steps produce, under any edits of the monitor and with a clock that does not go
-- back: the times of its status, its last evaluation and its last notification are not in the future,
-- and in NO_DATA it once had data and counts no breach.
pub Reach-IsValid : {t : ℕ} {g : Group} → Reach t g → IsValid t g
Reach-IsValid (born t) = new-IsValid t
Reach-IsValid (next r o c h) = step-IsValid o c (Reach-IsValid r) h

-- How many values in a row, up to the last one, breached critical. Evaluations without a value
-- are passed over.
abbrev pub count_breach : Config → ℕ → Observation → ℕ
count_breach c n o =
    if o.present then (if breach c.levels o.value c.levels.critical then n + 1 else 0) else n

abbrev pub streak_from : Config → ℕ → List Observation → ℕ
streak_from c n [] = n
streak_from c n (o ∷ os) = streak_from c (count_breach c n o) os

abbrev pub streak : Config → List Observation → ℕ
streak c os = streak_from c 0 os

streak_from_mono :
    (c : Config) (n m : ℕ) (os : List Observation) → n ≤ m → streak_from c n os ≤ streak_from c m os
streak_from_mono c n m [] h = h
streak_from_mono c n m (o ∷ os) h =
    streak_from_mono c (count_breach c n o) (count_breach c m o) os (ground arith)

breaches-le-one :
    (c : Config) (g : Group) (o : Observation)
    → (step g o c).0.breaches ≤ count_breach c g.breaches o
unfolding step observe next_breaches
breaches-le-one c g o = ground arith

breaches-le-streak_from :
    (c : Config) (g : Group) (os : List Observation)
    → (run c g os).breaches ≤ streak_from c g.breaches os
breaches-le-streak_from c g [] = omega arith
breaches-le-streak_from c g (o ∷ os) = le_trans (breaches-le-streak_from c (step g o c).0 os) (
    streak_from_mono c (step g o c).0.breaches (count_breach c g.breaches o) os
      (breaches-le-one c g o))

entered_by_breaches :
    (c : Config) (g : Group) (o : Observation)
    → g.status ≢ alert
    → (step g o c).0.status ≡ alert
    → (o.present ≡ true)
      × (breach c.levels o.value c.levels.critical ≡ true)
      × (max (pos_part c.min_failures) 1 ≤ g.breaches + 1)
unfolding step observe silent_status valued_status next_breaches min_fail
entered_by_breaches c g o h e = ground arith

streak_from-snoc :
    (c : Config) (n : ℕ) (os : List Observation) (o : Observation)
    → o.present ≡ true
    → breach c.levels o.value c.levels.critical ≡ true
    → streak_from c n (os ++ o ∷ []) ≡ streak_from c n os + 1
streak_from-snoc c n [] o p b = ground arith
streak_from-snoc c n (x ∷ os) o p b = streak_from-snoc c (count_breach c n x) os o p b

-- From a new group on, an observation that brings it into ALERT ends a row of at least
-- `min_consecutive_failures` values, and of at least one, that each breached critical, where
-- evaluations without a value are passed over.
pub alert_needs_streak :
    (c : Config) (t : ℕ) (os : List Observation) (o : Observation)
    → (run c (new t) os).status ≢ alert
    → (step (run c (new t) os) o c).0.status ≡ alert
    → (max (pos_part c.min_failures) 1 ≤ streak c (os ++ o ∷ [])) × (1 ≤ streak c (os ++ o ∷ []))
unfolding new
alert_needs_streak c t os o h e =
    let (p, b, n) = entered_by_breaches c (run c (new t) os) o h e in
    omega (arith, streak_from-snoc c 0 os o p b, breaches-le-streak_from c (new t) os)
