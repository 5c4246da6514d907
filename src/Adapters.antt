-- ===== src/Adapters.antt =====
-- src/executor/rgb.rs, evm.rs, cosmos.rs, stacks.rs, fedimint.rs and bitvm.rs: what the protocol
-- adapters accept and write.
pub mod Rgb
pub mod Evm
pub mod Cosmos
pub mod Stacks
pub mod BitVm
pub mod AdapterLaws
pub mod BitVmLaws
