-- ===== src/Monitor/State/Steps.antt =====
-- What one `step` of a group does, on every branch.
use ozymandias.Base.{max, ◌+◌, ◌≤◌, ◌<◌, ◌≡◌, refl, ◌≢◌, ◌⊎◌, ◌↔◌, true, false, arith}
use ozymandias.Base.Int.{pos, pos_part, leb_ℤ}
use ozymandias.Monitor.Levels.{breach}
use ozymandias.Monitor.State.{
  healthy, alert, no_data, Group, Observation, Config, notify_none, notify_renotify, sub_time,
  silent_status, next_breaches, min_fail, valued_status, observe, notice, step,
}

-- The value makes the last of enough breaches of critical.
abbrev pub Raises : Group → Observation → Config → Type 0
Raises g o c =
    (o.present ≡ true)
    × (breach c.levels o.value c.levels.critical ≡ true)
    × (max (pos_part c.min_failures) 1 ≤ g.breaches + 1)

-- There is no value, and the monitor does not ask for no-data, or the group never had data, or the
-- newest of it is less than the timeframe old.
abbrev pub StaysKnown : Group → Observation → Config → Type 0
StaysKnown g o c =
    (o.present ≡ false)
    × ((leb_ℤ c.no_data_timeframe (pos 0) ≡ true)
        ⊎ ((g.last_data ≡ 0)
            ⊎ (leb_ℤ c.no_data_timeframe (sub_time o.window_end g.last_data) ≡ false)))

-- The value is still past critical_recovery, or there is none and the group does not go silent.
abbrev pub Holds : Group → Observation → Config → Type 0
Holds g o c =
    ((o.present ≡ true) × (breach c.levels o.value c.levels.critical_recovery ≡ true))
    ⊎ StaysKnown g o c

-- What must hold of an observation for the group to be in ALERT after it.
abbrev pub Alerts : Group → Observation → Config → Type 0
Alerts g o c = Raises g o c ⊎ ((g.status ≡ alert) × Holds g o c)

pub step-alert_iff :
    (g : Group) (o : Observation) (c : Config) → ((step g o c).0.status ≡ alert) ↔ Alerts g o c
unfolding step observe silent_status valued_status next_breaches min_fail
step-alert_iff g o c = ((λ h. ground arith), λ h. ground arith)

-- When a group goes from another status to NO_DATA.
abbrev pub GoesSilent : Group → Observation → Config → Type 0
GoesSilent g o c =
    (o.present ≡ false)
    × (0 < pos_part c.no_data_timeframe)
    × (g.last_data ≢ 0)
    × (leb_ℤ c.no_data_timeframe (sub_time o.window_end g.last_data) ≡ true)

-- A group that was not in NO_DATA enters it exactly when it has no value, the monitor asks for
-- no-data, the group once had data, and the newest of it is at least the timeframe old.
pub step-no_data_iff :
    (g : Group) (o : Observation) (c : Config)
    → g.status ≢ no_data
    → ((step g o c).0.status ≡ no_data) ↔ GoesSilent g o c
unfolding step observe silent_status valued_status
step-no_data_iff g o c h = ((λ e. ground arith), λ e. ground arith)

-- A value always takes a group out of NO_DATA, and judges it as a healthy one with its count.
pub step_fresh :
    (g : Group) (o : Observation) (c : Config)
    → o.present ≡ true
    → g.status ≡ no_data
    → ((step g o c).0.status ≢ no_data)
      × ((step g o c).0.status ≡ (step (record g { status = healthy }) o c).0.status)
unfolding step observe valued_status next_breaches
step_fresh g o c p h = ground arith

-- Nobody is told of a muted step, and the state advances as if the monitor were not muted, but for
-- the time of the last notification.
pub step_muted :
    (g : Group) (o : Observation) (c : Config)
    → let quiet = step g o (record c { muted = true }) in
      let loud = step g o (record c { muted = false }) in
      (quiet.1.notify ≡ notify_none)
      × (quiet.0.last_notified ≡ g.last_notified)
      × (record (quiet.0) { last_notified = 0 } ≡ record (loud.0) { last_notified = 0 })
unfolding step notice observe silent_status valued_status next_breaches min_fail
step_muted g o c = (refl, refl, refl)

-- A repeated notification is for ALERT or NO_DATA, never muted, and comes at least `Renotify` after
-- the last notification of the group, where `Renotify` is a Duration of int64.
pub step_renotify :
    (g : Group) (o : Observation) (c : Config)
    → (step g o c).1.notify ≡ notify_renotify
    → (c.muted ≡ false)
      × ((g.status ≡ alert) ⊎ (g.status ≡ no_data))
      × ((step g o c).0.status ≡ g.status)
      × (g.last_notified + pos_part c.renotify ≤ o.now)
      × (0 < pos_part c.renotify)
unfolding step notice sub_time
step_renotify g o c h = ground arith
