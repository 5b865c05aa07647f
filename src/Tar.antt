-- ===== src/Tar.antt =====
-- scripts/backup-tar-consumers.ts: paths and links of a tar listing, and the guard of a tar stream.
pub mod Paths
pub mod Names
pub mod Samples
pub mod Numbers
pub mod Guard
mod Tests
