-- ===== src/Backup.antt =====
-- src/backup.rs and its modules.
pub mod Output
pub mod Restic
pub mod Execute
pub mod Repository
mod Tests
