-- ===== src/Upload.antt =====
-- scripts/backup-v2-upload.ts: the upload journal, and the upload of one
-- sealed slot.
pub mod Records
pub mod Operations
pub mod Journal
pub mod Session
pub mod Versions
pub mod Reconcile
pub mod Sealed
mod Tests
mod Runs
