-- ===== src/Plan.antt =====
-- backend/state/models.py: the authoritative state of a travel plan.
pub mod Model
pub mod Encode
pub mod Decode
pub mod Step
pub mod Load
pub mod Downstream
pub mod RoundTrip
pub mod Days
