-- ===== src/Reconciliation.antt =====
-- src/mercury_tools/reconciliation/matcher.py.
pub mod Radix
pub mod Candidates
pub mod Costs
pub mod Identifiers
pub mod Flags
pub mod Weights
pub mod Bounds
pub mod Order
pub mod Duplicates
pub mod Partition
mod Tests
