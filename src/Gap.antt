-- ===== src/Gap.antt =====
-- engine/laddering.py: the gap mode, which places at most one order on each side of a market.
mod Book
mod Explain
mod Market
pub mod Split
pub mod Cliff
mod Eligible
pub mod Choice
pub mod Placed
pub mod Budget
unfoldable pub use Book.*
unfoldable pub use Explain.*
unfoldable pub use Market.*
