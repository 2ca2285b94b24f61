-- ===== src/Store/StockStore/Commit.antt =====
-- Committing the store of stocks (store/src/store/stock_store.cpp).
use molar_tracker.Common.Exception.{Exception}
use molar_tracker.Store.BaseStore.{BaseStore}
