-- ===== src/Common.antt =====
-- The crate nivasa-common: the context of a request.
pub mod Request
