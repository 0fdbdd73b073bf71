-- ===== src/Sales.antt =====
-- engine/monitor.py: how the monitor sells a position: `_exit_position`, `_resolution_dump`,
-- `_market_dump`, and `check_exit`, with the router of Exit asked first.
mod World
mod Dump
mod Selling
mod LowBalance
pub mod Sends
pub mod Dumped
pub mod Pace
pub mod Paced
pub mod Sound
unfoldable pub use World.*
unfoldable pub use Dump.*
unfoldable pub use LowBalance.*
unfoldable pub use Selling.*
