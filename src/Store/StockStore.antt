-- ===== src/Store/StockStore.antt =====
-- The store of stocks (store/src/store/stock_store.cpp).
pub mod Tickers
pub mod Commit
use molar_tracker.Base.{
  refl, Option, none, some, List, [], ◌∷◌, ◌++◌, Bool, true, false, ◌&&◌, ◌||◌, not, if◌then◌else◌,
  ok, err, map, filter_if, any,
}
use molar_tracker.Base.Int.{ℤ, pos, ◌-ℤ◌, eqb_ℤ}
use molar_tracker.Base.Text.{Text, text_eq}
use molar_tracker.Common.Container.Map.{IdMap}
use molar_tracker.Common.Container.Set.{IdSet, contains, is_empty_set}
use molar_tracker.Common.Currency.{Currency}
use molar_tracker.Common.Exception.{Exception, Throws, Throws}
use molar_tracker.Store.BaseStore.{
  StoreState, StoreResult, Identified, Entry, BaseStore, is_deleted_state, is_dirty, add_entry,
  add_clean_entries, clear_entries, commit_entry, notify_on_commit,
}
use molar_tracker.Store.Saving.{Writing, save, finished}
use molar_tracker.Store.Renumbered.{renumbered}
use molar_tracker.Store.Loop.{Failure, Outcome, and_next, for_each_entry}

pub data AssetClass : Type 0 where
  stock_class etf crypto mutual_fund future unknown_class : AssetClass

pub record Stock : Type 0 where
  pub id : ℤ
  pub instrument_id : ℤ
  pub ticker : Text
  pub currency : Currency
  pub short_name : Text
  pub long_name : Text
  pub exchange : Text
  pub industry : Text
  pub sector : Text
  pub asset_class : AssetClass

pub data StockStoreResult : Type 0 where
  stock_ok : StockStoreResult
  stock_already_exists : StockStoreResult

-- What `addStock` of the service returns.
pub record InsertionResult : Type 0 where
  pub stock_id : ℤ
  pub new_instrument_id : ℤ

-- The methods for stocks of `IInstrumentService`.
pub record StockService (W : Type 0) : Type 0 where
  pub insert_stock : Stock → W → (Throws InsertionResult × W)
  pub read_stocks : IdSet → W → List Stock
  pub has_stock : Text → W → Bool

-- `getId` and `setId`
abbrev pub stocks : Identified Stock
stocks = record { get_id = λ t. t.id; set_id = λ t i. record t { id = i }; get_set = λ t i. refl }

-- `HasTicker`
abbrev pub has_ticker : Text → Stock → Bool
has_ticker ticker stock = text_eq stock.ticker ticker

abbrev with_instrument : ℤ → Stock → Stock
with_instrument i stock = record stock { instrument_id = i }

-- A value with the identifiers that it was given.
abbrev pub numbered :
    {W : Type 0} → Stock → IdMap ℤ → (Throws InsertionResult × W) → (Throws Stock × (W × IdMap ℤ))
numbered v m (err x, w) = (err x, (w, m))
numbered v m (ok r, w) =
    (ok (with_instrument r.new_instrument_id (stocks.set_id v r.stock_id)), (w, m))

module _ {W : Type 0} (D : StockService W) where
  unfoldable pub stock_exists : Text → Bool → BaseStore Stock → W → Bool
  stock_exists ticker check_deleted s w =
      let found =
        any (λ e. has_ticker ticker e.value && (check_deleted || not (is_deleted_state e.state)))
          s.entries in
      if s.full_cache then found else found || D.has_stock ticker w

  -- `addStock`; `next` is the next identifier of the sequence for instruments, which counts down.
  unfoldable pub add_stock :
      Stock → ℤ → BaseStore Stock → W → StockStoreResult × ℤ × BaseStore Stock
  add_stock stock next s w =
      if stock_exists stock.ticker true s w
      then (StockStoreResult.stock_already_exists, next, s)
      else (
        StockStoreResult.stock_ok,
        next -ℤ pos 1,
        (add_entry stocks (with_instrument next stock) s).1,
      )

  -- The creation of a row in `commit`, beside `_instrumentIdMap`; it may throw.
  unfoldable pub insert_new : Stock → W × IdMap ℤ → (Throws Stock × (W × IdMap ℤ))
  insert_new v (w, m) = numbered v m (D.insert_stock v w)

  abbrev pub writing : Writing Stock (W × IdMap ℤ)
  writing = record {
    create = insert_new;
    proceed = λ old new o s w. renumbered o s w old.instrument_id new.instrument_id;
    refused = Failure.thrown Exception.not_yet_implemented;
  }

  unfoldable pub save_stock :
      Entry Stock → BaseStore Stock → W × IdMap ℤ → Outcome Stock (W × IdMap ℤ)
  save_stock = save stocks writing

  -- `commit`
  unfoldable pub commit_stocks : BaseStore Stock → W × IdMap ℤ → Outcome Stock (W × IdMap ℤ)
  commit_stocks s (w, m) =
      if not (is_dirty s)
      then (ok tt, s, (w, m))
      else and_next (for_each_entry save_stock s (w, [])) finished

  -- `reload`
  unfoldable pub reload_stocks : BaseStore Stock → W → BaseStore Stock
  reload_stocks s w = add_clean_entries (D.read_stocks [] w) (clear_entries s)
