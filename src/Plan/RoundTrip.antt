-- ===== src/Plan/RoundTrip.antt =====
-- Reading back what `to_dict` of backend/state/models.py has written.
pub mod Texts
pub mod Parts
pub mod Whole
