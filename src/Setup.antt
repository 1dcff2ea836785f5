-- ===== src/Setup.antt =====
-- The setup wizard's apply and undo: planet_express/setup/journal.py, apply.py and undo.py. The steps'
-- handlers (planet_express/setup/handlers.py) are the parameter that they are in `apply` and `undo`.
pub mod Events
pub mod Journal
pub mod Durable
pub mod Runs
pub mod Apply
pub mod Undo
pub mod Cells
mod Tests
