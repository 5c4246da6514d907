-- ===== src/State.antt =====
-- src/state/mod.rs: the Merkle tree and the Merkle mountain range over the processed transactions.
pub mod Crypto
pub mod Tree
pub mod TreeLaws
pub mod Mmr
pub mod Mountains
pub mod Counting
pub mod MmrLaws
pub mod Node
pub mod NodeLaws
pub mod Positions
pub mod PositionLaws
pub mod Peaks
