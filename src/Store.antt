-- ===== src/Store.antt =====
-- internal/store: the tables of the SQLite database.
pub mod Rows
pub mod Agents
pub mod Tables
pub mod Audit
