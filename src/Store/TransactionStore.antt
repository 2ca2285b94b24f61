-- ===== src/Store/TransactionStore.antt =====
-- The store of transactions (store/src/store/transaction_store.cpp).
pub mod Remap
pub mod Commit
pub mod RenamedCash
pub mod Reading
use molar_tracker.Base.{
  ℕ, ◌≡◌, refl, Option, none, some, List, [], ◌∷◌, ◌++◌, Bool, true, false, ◌&&◌, ◌||◌, not,
  if◌then◌else◌, Result, err, ok, any, map, filter_if,
}
use molar_tracker.Base.Int.{ℤ, pos, is_negative}
use molar_tracker.Common.Container.Map.{IdMap, at, has_key, get_keys}
use molar_tracker.Common.Container.Set.{contains, is_empty_set}
use molar_tracker.Common.Exception.{Exception, Throws, runtime_error}
use molar_tracker.Filter.Predicate.{evaluate_predicate}
use molar_tracker.Finance.Account.{Account, Accounts}
use molar_tracker.Finance.Transaction.{
  TransactionEntry, TradeLeg, CashTransaction, StockTransaction, OptionTransaction,
}
use molar_tracker.Finance.Transaction.Domain.{
  DomainTransaction, get_legs, set_legs, set_entries, has_instrument_id, has_position_id,
}
use molar_tracker.Finance.Transaction.Converter.{
  Refusal, Converts, cash_to_domain, stock_to_domain, option_to_domain, lift,
}
use molar_tracker.Finance.Transaction.Filter.{TransactionFilter, get_predicate}
use molar_tracker.Finance.Transaction.Transactions.{
  Transactions, no_transactions, add_transactions, converted_error, Added,
}
use molar_tracker.Store.BaseStore.{
  StoreState, StoreResult, Identified, Entry, BaseStore, is_new, is_deleted_state, is_dirty,
  add_entry, update_entry, commit_entry, notify_on_commit, clear_entries,
}
use molar_tracker.Store.Saving.{Writing, with_id, save, finished}
use molar_tracker.Store.Loop.{after_commit, Failure, Outcome, and_next, for_each_entry}

-- `getId` and `setId`
abbrev pub transactions : Identified DomainTransaction
transactions = record {
  get_id = λ t. t.base.id;
  set_id = λ t i. record t { base = record t.base { id = i } };
  get_set = λ t i. refl;
}

-- `ITransactionService`; adding a row may throw, and the database gives a new row an identifier that is
-- not negative.
pub record TransactionService (W : Type 0) : Type 0 where
  pub add_transaction : DomainTransaction → W → (Throws ℤ × W)
  pub read_transactions : TransactionFilter → W → List DomainTransaction
  pub add-is_row :
      (t : DomainTransaction) (w : W) (i : ℤ)
      → (add_transaction t w).0 ≡ ok i
      → is_negative i ≡ false

-- `remap.contains(id) ? remap.at(id) : id`
abbrev pub renamed : IdMap ℤ → ℤ → ℤ
renamed m i = elim (at m i) [ none ↦ i | some j ↦ j ]

abbrev pub Body : Type 0 → Type 0
Body W = Entry DomainTransaction → BaseStore DomainTransaction → W → Outcome DomainTransaction W

-- What the loop of `_onAccountIdRemap` looks for and writes.
abbrev pub refers_to_account : IdMap ℤ → DomainTransaction → Bool
refers_to_account m t = any (λ x. has_key m x.account_id) t.entries

abbrev pub with_accounts : IdMap ℤ → DomainTransaction → Throws DomainTransaction
with_accounts m t =
    set_legs
      (set_entries t (
        map (λ (x : TransactionEntry). record x { account_id = renamed m x.account_id }) t.entries))
      (map (λ (l : TradeLeg). record l { account_id = renamed m l.account_id }) (get_legs t))

module _ {W : Type 0} where
  abbrev pub throws : Exception → BaseStore DomainTransaction → W → Outcome DomainTransaction W
  throws e s w = (err (Failure.thrown e), s, w)

  -- `txCopy.setLegs(legs)` and `_updateEntry(txCopy, StoreState::New)`
  abbrev pub update_new :
      Throws DomainTransaction → BaseStore DomainTransaction → W → Outcome DomainTransaction W
  update_new (ok t) s w = (ok tt, (update_entry transactions t StoreState.new s).1, w)
  update_new (err e) s w = throws e s w

  -- A round of `_onAccountIdRemap`.
  unfoldable pub remap_account : IdMap ℤ → Body W
  remap_account m e s w =
      if not (is_new e.state)
      then (if refers_to_account m e.value then throws runtime_error s w else (ok tt, s, w))
      else if refers_to_account m e.value || any (λ l. has_key m l.account_id) (get_legs e.value)
      then update_new (with_accounts m e.value) s w
      else (ok tt, s, w)

  -- A round of `_onInstrumentIdRemap`.
  unfoldable pub remap_instrument : IdMap ℤ → Body W
  remap_instrument m e s w =
      if not (is_new e.state)
      then (if any (has_instrument_id e.value) (get_keys m)
          then throws runtime_error s w
          else (ok tt, s, w))
      else if any (λ l. has_key m l.instrument_id) (get_legs e.value)
      then update_new
          (set_legs e.value (
            map (λ (l : TradeLeg). record l { instrument_id = renamed m l.instrument_id })
              (get_legs e.value)))
          s w
      else (ok tt, s, w)

  -- A round of `_onPositionIdRemap`.
  unfoldable pub remap_position : IdMap ℤ → Body W
  remap_position m e s w =
      if not (is_new e.state)
      then (if any (has_position_id e.value) (get_keys m)
          then throws runtime_error s w
          else (ok tt, s, w))
      else if any (λ l. has_key m l.position_id) (get_legs e.value)
      then update_new
          (set_legs e.value (
            map (λ (l : TradeLeg). record l { position_id = renamed m l.position_id })
              (get_legs e.value)))
          s w
      else (ok tt, s, w)

module _ {W : Type 0} (D : TransactionService W) where
  -- The result of `_commitEntry` is not used.
  abbrev pub writing : Writing DomainTransaction W
  writing = record {
    create = λ t w. with_id transactions t (D.add_transaction t w);
    proceed = λ old new. after_commit;
    refused = Failure.thrown runtime_error;
  }

  -- A round of the loop of `commit`.
  unfoldable pub save_entry : Body W
  save_entry = save transactions writing

  unfoldable pub commit :
      (account instrument position : IdMap ℤ)
      → BaseStore DomainTransaction
      → W
      → Outcome DomainTransaction W
  commit a i p s w =
      if not (is_dirty s)
      then (ok tt, s, w)
      else and_next (for_each_entry (remap_account a) s w) λ s₁ w₁.
        and_next (for_each_entry (remap_instrument i) s₁ w₁) λ s₂ w₂.
          and_next (for_each_entry (remap_position p) s₂ w₂)
            λ s₃ w₃. and_next (for_each_entry save_entry s₃ w₃) finished

  -- What `getTransactions` takes from the store and from the database: an entry that is not deleted
  -- and matches, and a row that has none of their identifiers.
  abbrev pub merged :
      TransactionFilter
      → (DomainTransaction → Bool)
      → BaseStore DomainTransaction
      → W
      → List DomainTransaction
  merged f test s w =
      let held =
        map (λ e. e.value)
          (filter_if (λ e. test e.value && not (is_deleted_state e.state)) s.entries) in
      held
      ++ filter_if (λ t. not (contains (map (λ h. h.base.id) held) t.base.id))
          (D.read_transactions f w)

  abbrev read_as : Added → Converts Transactions
  read_as (ok u, ts) = ok ts
  read_as (err e, ts) = err (converted_error e)

  -- `getTransactions`
  unfoldable pub get_transactions :
      TransactionFilter → Accounts → BaseStore DomainTransaction → W → Converts Transactions
  get_transactions f accounts s w =
      let ids = map (λ (a : Account). a.id) accounts in
      let f₁ = if is_empty_set f.account_ids then record f { account_ids = ids } else f in
      if is_empty_set ids then ok no_transactions else elim (get_predicate f₁) [
        | err e ↦ lift (err e)
        | ok node ↦
            read_as
              (add_transactions (merged f₁ (evaluate_predicate node) s w) accounts no_transactions)
      ]

abbrev added :
    Throws DomainTransaction → BaseStore DomainTransaction → Throws (BaseStore DomainTransaction)
added (ok t) s = ok (add_entry transactions t s).1
added (err e) s = err e

-- `addCashTransaction`, `addStockTransaction` and `addOptionTransaction`
unfoldable pub add_cash_transaction :
    CashTransaction → Accounts → BaseStore DomainTransaction → Throws (BaseStore DomainTransaction)
add_cash_transaction t accounts s = added (cash_to_domain t accounts) s

unfoldable pub add_stock_transaction :
    StockTransaction → Accounts → BaseStore DomainTransaction → Throws (BaseStore DomainTransaction)
add_stock_transaction t accounts s = added (stock_to_domain t accounts) s

unfoldable pub add_option_transaction :
    OptionTransaction
    → Accounts
    → BaseStore DomainTransaction
    → Throws (BaseStore DomainTransaction)
add_option_transaction t accounts s = added (option_to_domain t accounts) s

-- `reload`
abbrev pub reload : BaseStore DomainTransaction → BaseStore DomainTransaction
reload s = clear_entries s
