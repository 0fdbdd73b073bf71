-- ===== src/Liquidation.antt =====
-- engine/liquidation.py: the order in which positions are sold when the balance is low.
mod Defs
pub mod Order
unfoldable pub use Defs.*
