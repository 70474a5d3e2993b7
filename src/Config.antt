-- ===== src/Config.antt =====
-- The configuration of a client: its file, and what the database holds for it.
pub mod Local
pub mod Remote
pub mod Loading
mod Tests
