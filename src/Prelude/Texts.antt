-- ===== src/Prelude/Texts.antt =====
-- Texts as lists of code points, and the operations of Rust's `str` that the sources call.
mod Split
mod Trim
mod Compare
mod Maps
mod Join
mod Members
mod Utf8
pub use Split.*
pub use Compare.*
pub use Maps.*
pub use Join.*
pub use Members.*
pub use Utf8.*
unfoldable pub use Trim.*
