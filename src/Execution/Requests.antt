-- ===== src/Execution/Requests.antt =====
-- src/mercury_tools/execution/store.py: the local state machine of ERP write previews. The SQLite
-- table is the list of its rows; a method is a transaction on it.
mod Models
mod Table
mod Transaction
mod Store
mod Preview
mod Pending
mod Changes
pub mod Methods
pub mod Sound
pub mod Calls
mod Tests
pub use Models.*
