-- ===== src/Store.antt =====
-- core/store.py
pub mod Rows
pub mod Tx
pub mod Keeps
pub mod Approvals
pub mod Executions
pub mod Decisions
pub mod Steps
pub mod Attempts
pub mod Candidates
pub mod Auth
pub mod History
pub mod Incidents
mod Tests
pub mod Chat
