-- ===== src/Rollback.antt =====
-- The rollback planning of planet_express/execution/engine.py: the inverses of what a run changed.
pub mod Rows
pub mod Plan
pub mod Sorted
pub mod Preview
mod Tests
