-- ===== src/Hosted/Store.antt =====
-- `InMemoryHostedPreviewStore` of src/mercury_tools/execution/hosted/store.py, with the tests of the
-- authority of a call.
mod Authority
mod State
mod Previews
mod Operations
pub mod Maps
pub mod Confirming
pub mod Sound
pub mod Calls
pub mod Changes
pub mod Invariant
pub mod Concurrency
pub mod Safety
pub mod Access
pub mod Strangers
pub mod Retry
pub mod Acceptance
mod Tests
unfoldable pub use Authority.*
unfoldable pub use State.*
unfoldable pub use Previews.*
unfoldable pub use Operations.*
