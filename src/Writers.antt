-- ===== src/Writers.antt =====
-- The writers of backend/state/plan_writers.py beside those of daily plans, and
-- backend/agent/execution/limits.py.
pub mod Pace
pub mod Single
pub mod Appends
pub mod Brief
pub mod Limits
