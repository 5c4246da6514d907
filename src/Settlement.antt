-- ===== src/Settlement.antt =====
-- src/api/settlement.rs: routing policy and the external settlement trigger.
pub mod Policy
pub mod Validate
pub mod Extract
pub mod PolicyLaws
pub mod Trigger
pub mod Handler
pub mod TriggerLaws
