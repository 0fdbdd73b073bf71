-- ===== src/Exit.antt =====
-- engine/exit_router.py: how the router turns over the positions that it holds, and its whole tick.
mod Compare
mod Defs
mod Tick
pub mod Steps
pub mod Refines
pub mod Calls
pub mod Allowed
pub mod Timing
pub mod Twice
unfoldable pub use Compare.*
unfoldable pub use Defs.*
unfoldable pub use Tick.*
