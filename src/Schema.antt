-- ===== src/Schema.antt =====
-- The database schema (infra/database/schema).
pub mod Enums
pub mod Rows
