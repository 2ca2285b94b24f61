-- ===== src/Finance.antt =====
-- src/finance: positions folded from trades, and their profit and loss.
pub mod Account
pub mod Pnl
pub mod Transaction
pub mod Position
