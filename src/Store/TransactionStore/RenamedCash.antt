-- ===== src/Store/TransactionStore/RenamedCash.antt =====
-- A commit of a new cash transaction whose account gets another identifier
-- (store/src/store/transaction_store.cpp).

use molar_tracker.Base.{◌≡◌, refl, ap, List, ◌∷◌, true, not, err, any, length, get_elem?}
use molar_tracker.Base.Int.{ℤ}
use molar_tracker.Common.Container.Map.{IdMap}
use molar_tracker.Common.Exception.{Exception}
use molar_tracker.Finance.Transaction.{TransactionData}
use molar_tracker.Finance.Transaction.Domain.{
  DomainTransaction, set_legs, set_legs_of, with_data, set_entries,
}
use molar_tracker.Store.BaseStore.{StoreState, Entry, BaseStore, is_clean, is_dirty}
use molar_tracker.Store.Loop.{Failure, for_each, for_each_entry}
use molar_tracker.Store.TransactionStore.{
  TransactionService, commit, remap_account, refers_to_account, with_accounts,
}

module _ (a i p : IdMap ℤ) {W : Type 0} (D : TransactionService W) where
  with_accounts-cash :
      (v : DomainTransaction)
      → v.transaction_data ≡ TransactionData.cash_data
      → with_accounts a v ≡ err Exception.logic_error
  unfolding set_legs set_legs_of with_data set_entries
  with_accounts-cash v c = rw (with_accounts, set_legs, set_entries, c) refl

  first_round :
      (v : DomainTransaction) (rest : List (Entry DomainTransaction))
      (s : BaseStore DomainTransaction) (w : W)
      → s.entries ≡ record { value = v; state = StoreState.new } ∷ rest
      → v.transaction_data ≡ TransactionData.cash_data
      → refers_to_account a v ≡ true
      → for_each_entry (remap_account a) s w ≡ (err (Failure.thrown Exception.logic_error), s, w)
  unfolding for_each_entry for_each remap_account
  first_round v rest s w h c r =
      rw
        (
          for_each_entry,
          ap length h,
          for_each,
          ap (λ es. get_elem? es 0) h,
          remap_account,
          r,
          with_accounts-cash v c,
        )
        refl

  is_dirty-new :
      (v : DomainTransaction) (rest : List (Entry DomainTransaction))
      (s : BaseStore DomainTransaction)
      → s.entries ≡ record { value = v; state = StoreState.new } ∷ rest
      → is_dirty s ≡ true
  unfolding is_dirty
  is_dirty-new v rest s h = ap (any (λ e. not (is_clean e.state))) h

  -- If the first entry is a new transaction of cash that refers to a renamed account, the commit ends with
  -- a logic error, and neither the store nor the database changes.
  pub commit_renamed_cash :
      (v : DomainTransaction) (rest : List (Entry DomainTransaction))
      (s : BaseStore DomainTransaction) (w : W)
      → s.entries ≡ record { value = v; state = StoreState.new } ∷ rest
      → v.transaction_data ≡ TransactionData.cash_data
      → refers_to_account a v ≡ true
      → commit D a i p s w ≡ (err (Failure.thrown Exception.logic_error), s, w)
  unfolding commit
  commit_renamed_cash v rest s w h c r =
      rw (commit, is_dirty-new v rest s h, first_round v rest s w h c r) refl
