-- ===== src/Api.antt =====
-- The HTTP handlers of src/api, one module to a file.
pub mod Http
