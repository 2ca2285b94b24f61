-- ===== src/Settings.antt =====
-- The settings of the application (src/settings).
pub mod Param
pub mod NumericParam
pub mod EnumParam
pub mod VecParam
pub mod MapParam
pub mod Container
