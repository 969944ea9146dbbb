-- ===== src/Journals.antt =====
-- src/mercury_tools/journals/models.py: the preparation of a general journal.
pub mod Amounts
pub mod Accounts
pub mod Resolution
pub mod Prepare
pub mod Balance
mod Tests
