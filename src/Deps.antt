-- ===== src/Deps.antt =====
-- The dependency graph between compose services and the boot order that follows from it:
-- planet_express/core/dependencies.py, execution/boot_order.py and execution/dependency_dryrun.py.
pub mod Graph
pub mod Order
pub mod Detect
pub mod Boot
mod Tests
