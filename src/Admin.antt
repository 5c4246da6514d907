-- ===== src/Admin.antt =====
-- src/api/admin.rs: credentials and scopes, two signatures, and the registration of agents.
pub mod Auth
pub mod Signatures
pub mod Registration
pub mod Routes
pub mod AuthLaws
pub mod SignatureLaws
pub mod Kept
pub mod Claims
pub mod Grants
