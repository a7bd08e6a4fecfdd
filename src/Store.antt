-- ===== src/Store.antt =====
-- `Phase3CandidateStore` of backend/agent/phase3/candidate_store.py.
pub mod Candidates
pub mod Latest
pub mod Refines
