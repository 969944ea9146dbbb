-- ===== src/Hosted.antt =====
-- src/mercury_tools/execution/hosted: the hosted operation of a document, with its items, the preview
-- that it confirms, and the store of both.
pub mod Transitions
pub mod Operations
pub mod Previews
pub mod Confirmation
pub mod Store
