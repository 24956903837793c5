-- ===== src/Statechart.antt =====
-- The crate nivasa-statechart: the runtime engine, the document and its validator.
pub mod Engine
pub mod Document
pub mod Validator
