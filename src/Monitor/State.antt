-- ===== src/Monitor/State.antt =====
-- internal/monitor/state: one group's alert state, and its step on one observation.
-- A time is the number of nanoseconds since Go's zero time, so `IsZero` is a test for 0.
pub mod Steps
pub mod Runs
pub mod Alerting
pub mod Invariant
use ozymandias.Base.{
  ℕ, ◌+◌, ◌-◌, ◌^◌, min, max, Bool, true, false, not, ◌&&◌, ◌||◌, if◌then◌else◌, ltb, leb, ◌==◌,
}
use ozymandias.Base.Int.{ℤ, pos, negsuc, pos_part, leb_ℤ, ltb_ℤ}
use ozymandias.Base.Float.{nan}
use ozymandias.Monitor.Levels.{Levels, breach}

pub data Status : Type 0 where
  healthy warn alert no_data : Status

abbrev pub status_eq : Status → Status → Bool
status_eq healthy healthy = true
status_eq warn warn = true
status_eq alert alert = true
status_eq no_data no_data = true
status_eq _ _ = false

pub record Group : Type 0 where
  pub status : Status
  pub since : ℕ
  pub breaches : ℕ
  pub last_value : ℕ
  pub last_eval : ℕ
  pub last_data : ℕ
  pub last_notified : ℕ

unfoldable pub new : ℕ → Group
new now = record {
  status = healthy;
  since = now;
  breaches = 0;
  last_value = nan;
  last_eval = 0;
  last_data = 0;
  last_notified = 0;
}

pub record Observation : Type 0 where
  pub now : ℕ
  pub window_end : ℕ
  pub present : Bool
  pub value : ℕ
  pub data_ts : ℕ

pub record Config : Type 0 where
  pub levels : Levels
  pub min_failures : ℤ
  pub no_data_timeframe : ℤ
  pub renotify : ℤ
  pub muted : Bool

pub data Notify : Type 0 where
  notify_none notify_transition notify_renotify : Notify

pub record Outcome : Type 0 where
  pub from_status : Status
  pub to_status : Status
  pub notify : Notify

unfoldable pub changed : Outcome → Bool
changed r = not (status_eq r.from_status r.to_status)

-- `Time.Sub`: the duration is held within int64.
unfoldable pub sub_time : ℕ → ℕ → ℤ
sub_time a b =
    if leb b a then pos (min (a - b) (2 ^ 63 - 1)) else negsuc (min (b - a - 1) (2 ^ 63 - 1))

-- `noData`
unfoldable pub silent_status : Group → Observation → Config → Status
silent_status prev obs cfg =
    if leb_ℤ cfg.no_data_timeframe (pos 0) || prev.last_data == 0
    then prev.status
    else if leb_ℤ cfg.no_data_timeframe (sub_time obs.window_end prev.last_data)
    then no_data
    else prev.status

-- Data came back: evaluate as if fresh.
abbrev pub fresh : Status → Status
fresh no_data = healthy
fresh s = s

-- The count after a value, and the least count that makes ALERT.
unfoldable pub next_breaches : Group → ℕ → Config → ℕ
next_breaches prev v cfg = if breach cfg.levels v cfg.levels.critical then prev.breaches + 1 else 0

unfoldable pub min_fail : Config → ℕ
min_fail cfg = max (pos_part cfg.min_failures) 1

-- The `switch` of `evaluate`, and the whole of it.
unfoldable pub valued_status : Group → ℕ → Config → Status
valued_status prev v cfg =
    let from = fresh prev.status in
    if breach lv v lv.critical && leb (min_fail cfg) (next_breaches prev v cfg)
    then alert
    else if status_eq from alert && breach lv v lv.critical_recovery
    then alert
    else if lv.has_warning && breach lv v lv.warning
    then warn
    else if lv.has_warning
        && (status_eq from warn || status_eq from alert)
        && breach lv v lv.warning_recovery
    then warn
    else healthy
  where
    open cfg use {levels as lv}

unfoldable pub evaluate : Group → ℕ → Config → Status × ℕ
unfolding valued_status
evaluate prev v cfg = (valued_status prev v cfg, next_breaches prev v cfg)

-- The first half of `Step`: all but `since` and `last_notified`.
unfoldable pub observe : Group → Observation → Config → Group
unfolding evaluate
observe prev obs cfg =
    if not obs.present
    then record prev {
      last_eval = obs.now;
      status = silent_status prev obs cfg;
      breaches = if status_eq (silent_status prev obs cfg) no_data then 0 else prev.breaches;
    }
    else record prev {
      last_eval = obs.now;
      last_value = obs.value;
      last_data = if ltb prev.last_data obs.data_ts then obs.data_ts else prev.last_data;
      status = (evaluate prev obs.value cfg).0;
      breaches = (evaluate prev obs.value cfg).1;
    }

-- The `switch` that decides the notification, from the statuses before and after.
unfoldable pub notice : Group → Status → Observation → Config → Notify
notice prev next obs cfg =
    if cfg.muted
    then notify_none
    else if not (status_eq prev.status next)
    then notify_transition
    else if ltb_ℤ (pos 0) cfg.renotify
        && (status_eq next alert || status_eq next no_data)
        && leb_ℤ cfg.renotify (sub_time obs.now prev.last_notified)
    then notify_renotify
    else notify_none

abbrev pub is_notice : Notify → Bool
is_notice notify_none = false
is_notice _ = true

unfoldable pub step : Group → Observation → Config → Group × Outcome
unfolding changed
step prev obs cfg =
    let next = observe prev obs cfg in
    let why = notice prev next.status obs cfg in
    let res : Outcome = record {
      from_status = prev.status;
      to_status = next.status;
      notify = why;
    } in
    (
      record next {
        since = if changed res then obs.now else prev.since;
        last_notified = if is_notice why then obs.now else prev.last_notified;
      },
      res,
    )
