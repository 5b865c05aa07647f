-- ===== src/Contract.antt =====
-- scripts/backup-v2-contract.ts: the documents of the v2 backup and their validators. A validator
-- reads an untrusted `Value` and returns the typed record, or throws. Times of the monotonic clock
-- are whole milliseconds here.
pub mod Fields
pub mod Names
pub mod Roles
pub mod Refs
pub mod Slots
pub mod Pages
pub mod Manifests
pub mod Root
pub mod Receipts
pub mod Leases
pub mod Progress
pub mod Tests
