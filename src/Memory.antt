-- ===== src/Memory.antt =====
-- backend/memory/async_jobs.py: what the memory jobs read, and when they run.
pub mod Windows
pub mod WindowBounds
pub mod Jobs
pub mod JobOrder
