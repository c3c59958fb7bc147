-- ===== src/Store/Proofs.antt =====
-- What is proved of the store.
pub mod WellFormed
pub mod Rollback
pub mod RoundTrip
pub mod Reach
pub mod References
pub mod Indices
