-- ===== src/Cost.antt =====
-- engine/take_profit.py: `position_cost_with_lots`, the cost of a position replayed from its fills.
-- Prices are millionths of a dollar, sizes millionths of a share; `x > 1e-9` on a size is `0 < x`.
pub mod Fifo
pub mod Position
pub mod Bounds
mod Defs
unfoldable pub use Defs.*
