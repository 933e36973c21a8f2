-- ===== src/Monitor/Tests.antt =====
-- A cpu monitor, "critical above 90, warning above 80, recovering at 85 and 75", on concrete values.
use ozymandias.Base.{
  max, ℕ, ◌≤◌, ◌≡◌, ◌≢◌, refl, some, List, [], ◌∷◌, ◌++◌, All, true, false, arith,
}
use ozymandias.Base.Int.{pos, pos_part}
use ozymandias.Base.Float.{is_nan, rank, flt, fle, feq}
use ozymandias.Base.Bytes.{bytes_eq}
use ozymandias.Monitor.Levels.{
  Op, Levels, Query, Thresholds, compare, above, below, breach, not_finite, before, filled,
  bad_thresholds, bad_order, levels,
}
use ozymandias.Monitor.Levels.Order.{IsOrdered, levels-IsOrdered}
use ozymandias.Monitor.State.{
  Status, warn, alert, no_data, Group, new, Observation, Config, notify_renotify, changed, sub_time,
  silent_status, next_breaches, min_fail, valued_status, evaluate, observe, notice, step,
}
use ozymandias.Monitor.State.Runs.{
  run, outcomes, notices, InBand, Silent, Spaced, band_is_quiet, renotify-Spaced,
}
use ozymandias.Monitor.State.Invariant.{
  born, next, IsValid, streak, Reach-IsValid, alert_needs_streak,
}
use ozymandias.Monitor.Advance.{Value, Evaluation, States, seen, advance}
use ozymandias.Monitor.Advance.Count.{
  DistinctKeys, DistinctValues, tally, owed, is_known, tally-advance,
}
use ozymandias.Monitor.Advance.Forgotten.{ForgetsOld, advance-ForgetsOld}

-- 75.0, 80.0, 85.0, 90.0 and 95.0
abbrev f75 : ℕ
f75 = 0x4052c00000000000

abbrev f80 : ℕ
f80 = 0x4054000000000000

abbrev f85 : ℕ
f85 = 0x4055400000000000

abbrev f90 : ℕ
f90 = 0x4056800000000000

abbrev f95 : ℕ
f95 = 0x4057c00000000000

abbrev cpu_query : Query
cpu_query = record { op = Op.op_gt; threshold = f90 }

abbrev cpu_thresholds : Thresholds
cpu_thresholds = record {
  critical = some f90;
  warning = some f80;
  critical_recovery = some f85;
  warning_recovery = some f75;
}

abbrev cpu_levels : Levels
cpu_levels = record {
  op = Op.op_gt;
  critical = f90;
  critical_recovery = f85;
  has_warning = true;
  warning = f80;
  warning_recovery = f75;
}

cpu_accepted : levels cpu_query cpu_thresholds ≡ some cpu_levels
unfolding is_nan rank flt fle feq above below not_finite before filled bad_thresholds bad_order
    levels
cpu_accepted = refl

levels-IsOrdered_example : IsOrdered cpu_levels
levels-IsOrdered_example = levels-IsOrdered cpu_query cpu_thresholds cpu_accepted

-- Two failures in a row make an alert, and it is repeated after 100 ns.
abbrev cpu : Config
cpu = record {
  levels = cpu_levels;
  min_failures = pos 2;
  no_data_timeframe = pos 50;
  renotify = pos 100;
  muted = false;
}

abbrev at_time : ℕ → ℕ → Observation
at_time t v = record { now = t; window_end = t; present = true; value = v; data_ts = t }

abbrev nothing_at : ℕ → Observation
nothing_at t = record { now = t; window_end = t; present = false; value = 0; data_ts = 0 }

abbrev alerting : Group
alerting = record {
  status = alert;
  since = 20;
  breaches = 2;
  last_value = f95;
  last_eval = 20;
  last_data = 20;
  last_notified = 20;
}

abbrev silent : Group
silent = record alerting { status = no_data; breaches = 0 }

-- One breach warns, the second alerts, and the values between 85 and 90 keep the alert.
statuses :
    ((run cpu (new 1) (at_time 10 f95 ∷ [])).status ≡ warn)
    × ((run cpu (new 1) (at_time 10 f95 ∷ at_time 20 f95 ∷ [])).status ≡ alert)
    × ((run cpu (new 1) (at_time 10 f95 ∷ at_time 20 f95 ∷ at_time 30 f90 ∷ [])).status ≡ alert)
    × ((run cpu (new 1) (at_time 10 f95 ∷ at_time 20 f95 ∷ at_time 30 f85 ∷ [])).status ≡ warn)
unfolding is_nan rank flt fle feq compare breach new changed sub_time silent_status next_breaches
    min_fail valued_status evaluate observe notice step
statuses = (refl, refl, refl, refl)

still_alerting : (step alerting (nothing_at 30) cpu).0.status ≡ alert
unfolding changed sub_time silent_status observe notice step
still_alerting = refl

step_renotify_holds : (step alerting (at_time 130 f95) cpu).1.notify ≡ notify_renotify
unfolding is_nan rank flt fle feq compare breach changed sub_time silent_status next_breaches
    min_fail valued_status evaluate observe notice step
step_renotify_holds = refl

abbrev once : Config
once = record cpu { renotify = pos 0 }

abbrev flapping : List Observation
flapping = at_time 30 f90 ∷ at_time 40 f95 ∷ at_time 50 f90 ∷ []

flapping-InBand : All (InBand once) flapping
unfolding is_nan rank flt fle feq compare breach
flapping-InBand = ((refl, refl), ((refl, refl), ((refl, refl), tt)))

band_is_quiet_example :
    All Silent (outcomes once alerting flapping) × ((run once alerting flapping).status ≡ alert)
band_is_quiet_example = band_is_quiet once alerting flapping refl refl flapping-InBand

renotify-Spaced_example :
    Spaced 100 20 (notices cpu alerting (at_time 120 f95 ∷ at_time 230 f95 ∷ []))
renotify-Spaced_example = renotify-Spaced cpu alerting (at_time 120 f95 ∷ at_time 230 f95 ∷ [])

Reach-IsValid_example :
    IsValid 20 (step (step (new 1) (at_time 10 f95) cpu).0 (at_time 20 f95) cpu).0
Reach-IsValid_example =
    Reach-IsValid
      (next (next (born 1) (at_time 10 f95) cpu (omega arith)) (at_time 20 f95) cpu (omega arith))

abbrev one_breach : List Observation
one_breach = at_time 10 f95 ∷ []

not_yet : (run cpu (new 1) one_breach).status ≡ warn
unfolding is_nan rank flt fle feq compare breach new changed sub_time silent_status next_breaches
    min_fail valued_status evaluate observe notice step
not_yet = refl

now_alerting : (step (run cpu (new 1) one_breach) (at_time 20 f95) cpu).0.status ≡ alert
unfolding is_nan rank flt fle feq compare breach new changed sub_time silent_status next_breaches
    min_fail valued_status evaluate observe notice step
now_alerting = refl

warn_is_not_alert : {s : Status} → s ≡ warn → s ≢ alert
warn_is_not_alert e = ground (arith, e)

alert_needs_streak_example :
    (max (pos_part cpu.min_failures) 1 ≤ streak cpu (one_breach ++ at_time 20 f95 ∷ []))
    × (1 ≤ streak cpu (one_breach ++ at_time 20 f95 ∷ []))
alert_needs_streak_example =
    alert_needs_streak cpu 1 one_breach (at_time 20 f95) (warn_is_not_alert not_yet) now_alerting

-- A host that reports, one that is new, and one that has vanished.
abbrev known_hosts : States
known_hosts =
    (97 ∷ [], record { state = alerting; group = [] })
    ∷ (98 ∷ [], record { state = alerting; group = [] })
    ∷ []

abbrev host_values : List Value
host_values =
    record { key = 97 ∷ []; group = []; present = true; skipped = false; value = f95; data_ts = 30 }
    ∷ record {
      key = 99 ∷ [];
      group = [];
      present = true;
      skipped = false;
      value = f75;
      data_ts = 30;
    }
    ∷ []

abbrev at_30 : Evaluation
at_30 = record { config = cpu; absent_is_zero = false; now = 30; window_end = 30 }

distinct_hosts : DistinctKeys known_hosts
unfolding bytes_eq
distinct_hosts = (refl, (refl, tt))

distinct_values : DistinctValues host_values
unfolding bytes_eq seen
distinct_values = (refl, (refl, tt))

tally-advance_example :
    tally (98 ∷ []) (advance known_hosts host_values at_30)
    ≡ owed (98 ∷ []) (is_known (98 ∷ []) known_hosts) host_values
tally-advance_example =
    tally-advance (98 ∷ []) known_hosts host_values at_30 distinct_hosts distinct_values

-- A day later the vanished host is forgotten.
abbrev a_day_later : Evaluation
a_day_later = record at_30 { now = 86400000000020; window_end = 86400000000020 }

advance-ForgetsOld_example : All (ForgetsOld a_day_later) (advance known_hosts [] a_day_later)
advance-ForgetsOld_example = advance-ForgetsOld known_hosts [] a_day_later
