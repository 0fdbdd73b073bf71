-- ===== src/Reconcile.antt =====
-- engine/laddering.py: `reconcile_buy_orders`, which brings the resting buys of a token in line with
-- the planned ones.
pub mod Kept
pub mod Settled
mod Defs
unfoldable pub use Defs.*
