-- ===== src/Orm.antt =====
-- src/orm: the object-relational mapping, which builds the text of SQL statements and binds values.
pub mod Field
pub mod Where
pub mod Query
pub mod Model
pub mod Texts
pub mod Crud
