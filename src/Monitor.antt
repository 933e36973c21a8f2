-- ===== src/Monitor.antt =====
-- internal/monitor: the levels of a monitor (spec), the alert state machine of one group (state), and
-- the step of all groups of a monitor (advance.go).
pub mod Levels
pub mod State
pub mod Advance
mod Tests
