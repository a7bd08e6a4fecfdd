-- ===== src/Tools.antt =====
-- Calls of tools: backend/agent/types.py, backend/tools/base.py, backend/tools/engine.py and
-- backend/agent/execution/tool_invocation.py with tool_batches.py.
pub mod Types
pub mod Engine
pub mod Sorting
pub mod EngineOrder
pub mod Phases
pub mod History
pub mod Skips
pub mod Batches
pub mod Answers
pub mod Fuel
pub mod Outcome
