-- ===== src/Common.antt =====
-- src/common: money and quantities, versions, identifiers and containers.
pub mod Exception
pub mod Currency
pub mod Word
pub mod Quantity
pub mod Cash
pub mod Version
pub mod Id
pub mod Container
