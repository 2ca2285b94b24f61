-- ===== src/SqlModels.antt =====
-- src/sql_models: the tables of the database and conditions on them.
pub mod Columns
pub mod Masters
pub mod Movements
