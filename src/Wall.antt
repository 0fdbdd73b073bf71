-- ===== src/Wall.antt =====
-- engine/legacy_wall.py and engine/order_sizing.py: the older mode, which places an order one level
-- below the first thick level of the book.
mod Pricing
mod Explain
pub mod First
pub mod Agree
pub mod Budget
unfoldable pub use Pricing.*
unfoldable pub use Explain.*
