-- ===== src/Context.antt =====
-- What stands before a call of the model: backend/agent/compaction.py, and the hook of
-- backend/api/orchestration/agent/hooks.py.
pub mod Compaction
pub mod Summary
pub mod Pairs
