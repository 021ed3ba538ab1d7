-- ===== src/Tables.antt =====
-- The PostgreSQL repositories of keys, sources and profiles, statement by statement.
pub mod Keys
pub mod Sources
pub mod Profiles
