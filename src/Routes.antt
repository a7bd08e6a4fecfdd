-- ===== src/Routes.antt =====
-- The order of a day's stops: backend/tools/optimize_day_route.py.
pub mod Distance
pub mod Stops
pub mod Tool
pub mod Taken
pub mod Greedy
pub mod Reply
