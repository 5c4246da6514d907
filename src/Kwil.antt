-- ===== src/Kwil.antt =====
-- src/storage/kwil.rs: the requests to Kwil and the texts that they sign.
pub mod Requests
pub mod RequestLaws
