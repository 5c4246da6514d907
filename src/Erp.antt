-- ===== src/Erp.antt =====
-- src/api/erp.rs: the attested synchronisation of ERP transactions.
pub mod Attestation
pub mod Canonical
pub mod Signed
pub mod Window
pub mod Sync
pub mod Replay
