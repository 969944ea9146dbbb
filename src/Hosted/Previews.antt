-- ===== src/Hosted/Previews.antt =====
-- src/mercury_tools/execution/hosted/models.py: `DocumentPreview` and its items, with the rules on
-- states, times and identifiers, and the transitions.
mod Models
pub mod Laws
pub mod Confirm
unfoldable pub use Models.*
