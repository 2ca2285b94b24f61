-- ===== src/Store/OptionStore/Commit.antt =====
-- Committing the store of options (store/src/store/option_store.cpp).
use molar_tracker.Common.Exception.{Exception}
use molar_tracker.Store.BaseStore.{BaseStore}
