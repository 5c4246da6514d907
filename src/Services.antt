-- ===== src/Services.antt =====
-- src/api/identity.rs and src/api/dlc.rs.
pub mod Identity
pub mod Dlc
pub mod ServiceLaws
