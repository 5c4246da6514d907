-- ===== src/Rest.antt =====
-- src/api/rest.rs: the proofs, the submission, the health and the adapters over HTTP.
pub mod Proofs
pub mod Routes
pub mod ProofLaws
