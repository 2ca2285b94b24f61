-- ===== src/Examples/OptionStore.antt =====
-- The store of options committed at concrete inputs (store/src/store/option_store.cpp).
use molar_tracker.Common.Exception.{Exception}
use molar_tracker.Base.{ℕ, suc, List, [], ◌∷◌, true, false, ok}
use molar_tracker.Base.Int.{ℤ, pos, negsuc}
use molar_tracker.Common.Container.Map.{IdMap}
use molar_tracker.Common.Currency.{Currency}
use molar_tracker.Finance.Pnl.State.{OptionType}
use molar_tracker.Store.BaseStore.{StoreState, Entry, BaseStore}
use molar_tracker.Store.StockStore.{Stock, AssetClass}
use molar_tracker.Store.OptionStore.{FinanceOption, OptionService}

abbrev a_stock : (id : ℤ) → (instrument : ℤ) → Stock
a_stock id instrument = record {
  id = id;
  instrument_id = instrument;
  ticker = 65 ∷ [];
  currency = Currency.usd;
  short_name = [];
  long_name = [];
  exchange = [];
  industry = [];
  sector = [];
  asset_class = AssetClass.stock_class;
}

abbrev an_option : (id : ℤ) → (instrument : ℤ) → (underlying : ℤ) → FinanceOption
an_option id instrument underlying = record {
  id = id;
  instrument_id = instrument;
  underlying = a_stock (pos 1) underlying;
  option_type = OptionType.call;
  strike_price = record { currency = Currency.usd; amount = pos 5 };
  expiration_date = pos 9;
  contract_size = pos 100;
}

abbrev store_with : {T : Type 0} → List (Entry T) → BaseStore T
store_with es = record {
  entries = es;
  is_potentially_dirty = true;
  id_remap = [];
  updated = [];
  added = [];
  removed = [];
  next_id = negsuc 8;
  already_notified = false;
  full_cache = true;
  sent = [];
}

-- A database that counts its rows.
abbrev counting_options : OptionService ℕ
counting_options = record {
  insert_option = λ o n. (ok (record { option_id = pos n; instrument_id = pos n }), suc n);
  read_options = λ n. [];
  read_options_of = λ ids n. [];
}

-- A saved option, and a new one whose underlying is new as well.
abbrev two_options : BaseStore FinanceOption
two_options = store_with (
    record { value = an_option (pos 1) (pos 2) (pos 1); state = StoreState.clean }
    ∷ record { value = an_option (negsuc 1) (negsuc 4) (negsuc 3); state = StoreState.new }
    ∷ [])

-- The map that the commit of the stock with the identifier `negsuc 3` leaves behind.
abbrev new_ids : IdMap ℤ
new_ids = (negsuc 3, pos 7) ∷ []
