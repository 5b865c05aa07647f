-- ===== src/Retention.antt =====
-- scripts/backup-v2-retention.ts: what the pruning of old captures must not touch, the plan of what
-- it may delete, and the journal of its deletions.
pub mod Protection
pub mod Inventory
pub mod Snapshot
pub mod Plan
pub mod Deletions
pub mod Checks
pub mod Execution
mod Tests
mod Runs
