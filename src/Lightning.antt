-- ===== src/Lightning.antt =====
-- The Lightning resilience layer: src/executor/lightning.rs, and the audit of src/orchestrator.rs
-- that stores what it decides.
pub mod Payment
pub mod Recovery
pub mod Audit
pub mod Tables
pub mod AuditLaws
