-- ===== src/Alerts.antt =====
-- internal/rules/rules.go: alert rules, their evaluation, and the life of an alert. A time is in
-- nanoseconds. `Evaluate` inserts a row for each change of state; the newest row stands first, and
-- its id, an INTEGER PRIMARY KEY, is above all others.
pub mod Decide
pub mod Evaluate
pub mod Manage
pub mod Transitions
pub mod Maintenance
pub mod History
