-- ===== src/Sqlitex.antt =====
-- The sqlitex package: migrations, the query helpers and the opening of a database.
pub mod Migrate
pub mod Query
pub mod Open
