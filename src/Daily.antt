-- ===== src/Daily.antt =====
-- backend/tools/plan_tools/daily_plans.py and the daily plans of backend/state/plan_writers.py.
pub mod Writers
pub mod Checks
pub mod Tools
pub mod Order
pub mod Saves
pub mod Outcome
pub mod Calendar
