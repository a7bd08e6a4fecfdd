-- ===== src/Choices.antt =====
-- The other tools of backend/tools/plan_tools/phase2_tools.py: lists that are replaced, and choices.
pub mod Tools
pub mod Outcome
