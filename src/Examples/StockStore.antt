-- ===== src/Examples/StockStore.antt =====
-- The store of stocks at concrete inputs.
use molar_tracker.Common.Exception.{Exception}
use molar_tracker.Base.{ℕ, ◌≡◌, refl, [], ◌∷◌, true, false, any, ok}
use molar_tracker.Base.Int.{ℤ, pos, negsuc}
use molar_tracker.Base.Text.{Text}
use molar_tracker.Common.Currency.{Currency}
use molar_tracker.Store.BaseStore.{StoreState, BaseStore}
use molar_tracker.Store.StockStore.{
  Stock, AssetClass, StockService, StockStoreResult, add_stock, has_ticker,
}
use molar_tracker.Store.StockStore.Tickers.{unique_tickers, add_stock-unique_tickers}

abbrev stock_of : ℤ → Text → Stock
stock_of i t = record {
  id = i;
  instrument_id = i;
  ticker = t;
  currency = Currency.usd;
  short_name = t;
  long_name = t;
  exchange = [];
  industry = [];
  sector = [];
  asset_class = AssetClass.stock_class;
}

abbrev deleted_stock : BaseStore Stock
deleted_stock = record {
  entries = record { value = stock_of (pos 1) (65 ∷ []); state = StoreState.deleted } ∷ [];
  is_potentially_dirty = true;
  id_remap = [];
  updated = [];
  added = [];
  removed = [];
  next_id = negsuc 1;
  already_notified = false;
  full_cache = true;
  sent = [];
}

abbrev no_rows : StockService ℕ
no_rows = record {
  insert_stock = λ t n. (ok (record { stock_id = pos n; new_instrument_id = pos n }), n);
  read_stocks = λ ids n. [];
  has_stock = λ t n. false;
}

add_stock-unique_tickers_example :
    (unique_tickers
        (add_stock no_rows (stock_of (pos 0) (65 ∷ [])) (negsuc 1) deleted_stock 3).2.entries
      ≡ true)
    × (any (λ e. has_ticker (65 ∷ []) e.value) deleted_stock.entries ≡ true
        → add_stock no_rows (stock_of (pos 0) (65 ∷ [])) (negsuc 1) deleted_stock 3
          ≡ (StockStoreResult.stock_already_exists, negsuc 1, deleted_stock))
add_stock-unique_tickers_example =
    add_stock-unique_tickers no_rows (stock_of (pos 0) (65 ∷ [])) (negsuc 1) deleted_stock 3 refl

abbrev new_stock : BaseStore Stock
new_stock = record deleted_stock {
  entries = record { value = stock_of (negsuc 1) (66 ∷ []); state = StoreState.new } ∷ [];
}
