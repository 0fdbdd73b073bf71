-- ===== src/Quote.antt =====
-- engine/protected_exit.py: what a position recovers by a protected sale, or by buying the other
-- outcome and merging the pair.
mod Defs
pub mod Walk
pub mod Sale
pub mod Merge
unfoldable pub use Defs.*
