-- ===== src/Tiers.antt =====
-- engine/tiers.py: the configured order sizes of the reward markets.
mod Defs
pub mod Unique
unfoldable pub use Defs.*
