-- ===== src/Db.antt =====
-- src/db: a connection to SQLite, prepared statements and transactions.
pub mod Engine
pub mod Database
pub mod Transaction
pub mod Backup
