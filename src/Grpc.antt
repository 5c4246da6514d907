-- ===== src/Grpc.antt =====
-- src/api/grpc.rs: the flags and counts that the service reads, and its calls.
pub mod Flags
pub mod Service
pub mod ServiceLaws
