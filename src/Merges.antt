-- ===== src/Merges.antt =====
-- models/database.py (merge events) and engine/exit_router.py: the life of a merge event, from its
-- reservation to its confirmation.
mod Store
mod State
mod Router
mod Routes
pub mod Rows
pub mod Moves
pub mod Reconcile
pub mod Invariant
pub mod Create
pub mod Steps
pub mod Keys
pub mod Pages
pub mod Safety
unfoldable pub use Store.*
unfoldable pub use State.*
unfoldable pub use Router.*
unfoldable pub use Routes.*
