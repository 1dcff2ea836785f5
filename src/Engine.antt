-- ===== src/Engine.antt =====
-- The runbook engine of execution/engine.py: it runs the steps of an approved runbook in order. The
-- first failure stops the run, the steps behind it are skipped and their attempts released.
pub mod Canary
pub mod Dispatched
pub mod Executors
pub mod Honest
pub mod Kept
pub mod Loop
pub mod Marks
pub mod Perform
pub mod Programs
pub mod Runbook
pub mod Scripts
pub mod Settled
pub mod Startup
mod Tests
pub mod Windows
