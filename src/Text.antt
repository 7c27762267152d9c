-- ===== src/Text.antt =====
-- Python text as a list of code points, with the methods of `str` that the sources call.
pub mod Laws
mod Defs
unfoldable pub use Defs.*
