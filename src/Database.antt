-- ===== src/Database.antt =====
-- src/db/queries.rs: the statements, over the tables of migrations/. A statement's text is read as
-- PostgreSQL documents it: a function on the tables.
pub mod World
pub mod Reads
pub mod Writes
pub mod Queries
pub mod Runs
