-- ===== src/TakeProfit.antt =====
-- engine/take_profit.py: where a position is sold, and how its resting sells are brought in line.
pub mod Tick
pub mod Safety
pub mod Resting
pub mod Stop
mod Defs
unfoldable pub use Defs.*
