-- ===== src/Fills.antt =====
-- engine/fills.py: our fills inside the trades that the exchange reports.
pub mod Once
pub mod Sides
mod Defs
unfoldable pub use Defs.*
