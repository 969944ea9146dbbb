-- ===== src/Qualification.antt =====
-- src/mercury_tools/qualification: the store of a run, the selection of evidence and the order of
-- fixtures.
pub mod RunStore
pub mod Selection
pub mod Planner
