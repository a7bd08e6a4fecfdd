-- ===== src/Loop.antt =====
-- The agent loop: backend/agent/loop.py with the parts of backend/agent/execution/ that it composes.
pub mod Messages
pub mod Pairing
pub mod Transition
pub mod Turn
pub mod Repair
pub mod Run
pub mod Protocol
