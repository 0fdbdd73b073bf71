-- ===== src/Scan.antt =====
-- engine/scanner.py: which tokens of the candidate pool are eligible for a template, with the category
-- tests of engine/categories.py.
mod Filter
pub mod Spread
pub mod Eligible
unfoldable pub use Filter.*
