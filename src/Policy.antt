-- ===== src/Policy.antt =====
-- What may run without a person: planet_express/execution/policy.py, with the step types of
-- execution/runbook.py and `AutonomyConfig` of config_schema.py.
pub mod Catalogue
pub mod Autonomy
pub mod Decide
pub mod Unattended
pub mod Limits
mod Tests
