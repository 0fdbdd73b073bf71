-- ===== src/Ledger.antt =====
-- engine/merge_accounting.py, engine/merge.py and engine/pnl.py: what merges and sales have earned.
mod Defs
mod Pnl
pub mod Consume
pub mod Daily
pub mod Realized
pub mod Totals
pub mod Assets
unfoldable pub use Defs.*
unfoldable pub use Pnl.*
