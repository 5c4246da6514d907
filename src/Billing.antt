-- ===== src/Billing.antt =====
-- src/api/billing/mod.rs: developer keys, their quota and the grace period.
pub mod Quota
pub mod Keys
pub mod QuotaLaws
pub mod HashLaws
pub mod KeysLaws
