-- ===== src/Tests.antt =====
-- Concrete runs of the program's functions, and each theorem with conditions applied to one of them.
mod Positions
mod Fills
mod Filled
mod Orders
mod Walls
mod Money
mod Events
mod Exits
mod Places
mod Rechecks
mod Guards
mod Selling
mod Scans
mod Settings
