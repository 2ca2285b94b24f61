-- ===== src/Finance/Pnl.antt =====
-- The fold of a position's trades into its state (finance/src/finance/transaction/pnl.cpp).
pub mod State
pub mod Currency
pub mod Stock
pub mod Option
pub mod Fold
