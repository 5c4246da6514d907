-- ===== src/Tests.antt =====
-- Concrete instances of the crates and services that the code calls, and the theorems at inputs.
pub mod Stubs
pub mod Json
mod StateTests
mod LightningTests
mod ErpTests
mod SettlementTests
mod SafetyTests
mod AdapterTests
mod SyncTests
mod ConfigTests
mod AdminTests
mod BillingTests
