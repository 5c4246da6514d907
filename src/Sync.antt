-- ===== src/Sync.antt =====
-- src/sync/mod.rs: microblocks into the state tracker, Redis and Kwil.
pub mod Microblock
pub mod MicroblockLaws
