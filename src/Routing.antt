-- ===== src/Routing.antt =====
-- The crate nivasa-routing (nivasa-routing/src/lib.rs): paths, patterns, the two registries.
pub mod Path
pub mod Version
pub mod Pattern
pub mod Capture
pub mod Index
pub mod Table
pub mod Registry
pub mod Method
pub mod Controller
pub mod Dispatch
