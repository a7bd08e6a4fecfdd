-- ===== src/Harness.antt =====
-- backend/harness: the checks on a plan.
pub mod Times
pub mod Conflicts
