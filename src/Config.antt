-- ===== src/Config.antt =====
-- src/config.rs and `Storage::new` of src/storage/mod.rs: the environment, and the boundary check of
-- release builds.
pub mod Env
pub mod Boundary
pub mod BoundaryLaws
