-- ===== src/Monitor.antt =====
-- engine/monitor.py: the handling of fills in `check_buy_orders`, the guard `check_resolution`, and the
-- recheck of the resting orders in `check_sell_orders`, with what it takes from engine/rewards.py and
-- engine/eligibility.py.
mod Rewards
mod Judge
mod Recheck
mod Filled
mod Guard
pub mod Agree
pub mod Cancelled
pub mod OwnOrders
pub mod Restart
pub mod Handled
pub mod Resolved
unfoldable pub use Rewards.*
unfoldable pub use Judge.*
unfoldable pub use Recheck.*
unfoldable pub use Filled.*
unfoldable pub use Guard.*
