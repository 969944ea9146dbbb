-- ===== src/Hosted/Store/Sound.antt =====
-- The invariants of the store of execution/hosted/store.py, and that every method keeps them.
pub mod Previews
pub mod Operations
