-- ===== src/Skeletons.antt =====
-- The skeletons of a trip: the tools on them in backend/tools/plan_tools/phase2_tools.py.
pub mod Days
pub mod Tools
pub mod Places
pub mod Selected
pub mod Locked
