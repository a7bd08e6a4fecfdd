-- ===== src/Phase.antt =====
-- backend/phase and backend/agent/hooks.py: which phase a plan is in, and how it changes.
pub mod Hooks
pub mod Router
pub mod Backtrack
pub mod Inference
pub mod Return
pub mod Gates
pub mod Advance
