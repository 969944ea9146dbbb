-- ===== src/Qualification/RunStore.antt =====
-- src/mercury_tools/qualification/run_store.py: the state of one sandbox qualification run.
pub mod Models
pub mod Store
pub mod Cleanup
pub mod Kept
pub mod Steps
pub mod Writes
pub mod Methods
pub mod Calls
pub mod Runs
pub mod Opening
pub mod Publication
mod Tests
