-- ===== src/Core.antt =====
-- The crate nivasa-core: the dependency graph of providers and the module registry.
pub mod Graph
pub mod Modules
