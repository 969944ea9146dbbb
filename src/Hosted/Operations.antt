-- ===== src/Hosted/Operations.antt =====
-- src/mercury_tools/execution/hosted/models.py: `OperationItem`, `OperationEvent` and
-- `HostedOperation`, with their validation and their transitions.
mod Models
mod Moves
pub mod Values
pub mod Splits
pub mod Steps
pub mod History
pub mod Log
pub mod Identity
pub mod Progress
unfoldable pub use Models.*
unfoldable pub use Moves.*
