-- ===== src/Evidence.antt =====
-- backend/tools/plan_tools/evidence.py and backend/tools/source_registry.py.
pub mod Lines
pub mod Sources
pub mod Rules
pub mod Honesty
pub mod Excluded
