-- ===== src/Guards.antt =====
-- The crate nivasa-guards (nivasa-guards/src/lib.rs): the context that guards see and the three
-- built-in guards. The futures of `can_activate` are ready at once, so a guard is its answer.
pub mod Context
pub mod Throttle
pub mod Auth
pub mod Roles
