-- ===== src/Place.antt =====
-- engine/manager.py: `WalletWorker.place_orders`, the round that places a wallet's buy orders, with what
-- it takes from engine/positions.py, engine/strategy.py and engine/resolution.py.
mod Holdings
mod World
mod Market
mod Rounds
pub mod Sums
pub mod Accepted
pub mod Room
pub mod Limits
pub mod Sends
pub mod Planned
pub mod Exposure
unfoldable pub use Holdings.*
unfoldable pub use World.*
unfoldable pub use Market.*
unfoldable pub use Rounds.*
