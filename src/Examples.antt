-- ===== src/Examples.antt =====
-- Runs of the model at concrete inputs: tests by evaluation, and the theorems at inputs that meet
-- their hypotheses.
pub mod Fractions
pub mod Cash
pub mod Pnl
pub mod Commands
pub mod Store
pub mod Transactions
pub mod Settings
pub mod TransactionStore
pub mod WatchlistStore
pub mod OptionStore
pub mod StockStore
pub mod Sql
pub mod Database
pub mod Backup
