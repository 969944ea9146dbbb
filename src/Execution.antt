-- ===== src/Execution.antt =====
-- src/mercury_tools/execution: the local path of an ERP mutation, from its risk to its outcome.
pub mod Policy
pub mod Requests
