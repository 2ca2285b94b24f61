-- ===== src/Store.antt =====
-- src/store: the base of all stores, and the stores of transactions, positions, stocks, options and watch lists.
pub mod BaseStore
pub mod Loop
pub mod Saving
pub mod Distinct
pub mod Renumbered
pub mod TransactionStore
pub mod Lookup
pub mod Fresh
pub mod PositionStore
pub mod StockStore
pub mod WatchlistStore
pub mod OptionStore
