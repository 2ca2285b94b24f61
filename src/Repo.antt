-- ===== src/Repo.antt =====
-- src/repo: what is kept in the database, and how its versions are brought up to date.
pub mod Migration
