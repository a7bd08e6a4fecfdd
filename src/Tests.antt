-- ===== src/Tests.antt =====
-- Concrete runs of the modelled parts of backend/.
pub mod Samples
pub mod Loop
pub mod Prompts
pub mod Plans
pub mod Returns
pub mod Days
pub mod Jobs
pub mod Writes
pub mod Calls
pub mod Sources
pub mod Stops
pub mod Candidates
pub mod Skeletons
