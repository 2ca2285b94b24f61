-- ===== src/Examples/TransactionStore.antt =====
-- The store of transactions at concrete inputs.
use molar_tracker.Base.{ℕ, suc, ◌≡◌, refl, none, List, [], ◌∷◌, true, false, ok, err, sym, ap}
use molar_tracker.Base.Int.{ℤ, pos, negsuc, is_negative}
use molar_tracker.Common.Container.Map.{IdMap, at, has_key}
use molar_tracker.Common.Currency.{Currency}
use molar_tracker.Common.Exception.{Exception, ok_eq}
use molar_tracker.Finance.Transaction.{
  TransactionStatus, TransactionEntry, TransactionEntryType, TransactionData, TradeLeg,
}
use molar_tracker.Finance.Transaction.Domain.{DomainTransaction}
use molar_tracker.Store.BaseStore.{StoreState, Entry, BaseStore, is_dirty}
use molar_tracker.Finance.Position.{Position}
use molar_tracker.Store.Saving.{savable, with_id, store_row}
use molar_tracker.Store.PositionStore.{
  PositionService, positions, commit_positions, commit_positions-walk,
}
use molar_tracker.Store.Loop.{Failure, view, walk}
use molar_tracker.Store.TransactionStore.{TransactionService, commit, merged}
use molar_tracker.Common.Container.Set.{contains}
use molar_tracker.Finance.Transaction.Filter.{TransactionFilter}
use molar_tracker.Store.TransactionStore.Reading.{under, held_in, under-merged}
use molar_tracker.Store.TransactionStore.RenamedCash.{commit_renamed_cash}

abbrev entry_of : ℤ → TransactionEntry
entry_of account = record {
  id = pos 0;
  account_id = account;
  cash = record { currency = Currency.usd; amount = pos 5 };
  entry_type = TransactionEntryType.general_entry;
}

abbrev leg_of : ℤ → TradeLeg
leg_of account = record {
  account_id = account;
  instrument_id = negsuc 4;
  quantity = record { value = pos 100000000 };
  amount = record { currency = Currency.usd; amount = pos 5 };
  position_id = pos 2;
}

abbrev row_of : ℤ → TransactionData → ℤ → DomainTransaction
row_of i d account = record {
  base = record {
    id = i;
    timestamp = pos 1700000000;
    status = TransactionStatus.completed;
    comment = none;
  };
  transaction_data = d;
  entries = entry_of account ∷ [];
}

abbrev store_of : List (Entry DomainTransaction) → BaseStore DomainTransaction
store_of es = record {
  entries = es;
  is_potentially_dirty = true;
  id_remap = [];
  updated = [];
  added = [];
  removed = [];
  next_id = negsuc 8;
  already_notified = false;
  full_cache = true;
  sent = [];
}

-- A database that counts its rows.
abbrev counting : TransactionService ℕ
counting = record {
  add_transaction = λ t n. (ok (pos n), suc n);
  read_transactions = λ f n. [];
  add-is_row = λ t n i h. ap is_negative (sym (ok_eq h));
}

-- A saved transaction, a new deposit on a saved account, and a new trade on a new account with a new
-- instrument.
abbrev three_rows : BaseStore DomainTransaction
three_rows = store_of (
    record { value = row_of (pos 3) TransactionData.cash_data (pos 1); state = StoreState.clean }
    ∷ record { value = row_of (negsuc 1) TransactionData.cash_data (pos 1); state = StoreState.new }
    ∷ record {
      value = row_of (negsuc 2) (TransactionData.stock_data (leg_of (negsuc 3) ∷ [])) (negsuc 3);
      state = StoreState.new;
    }
    ∷ [])

abbrev new_account : IdMap ℤ
new_account = (negsuc 3, pos 8) ∷ []

abbrev new_instrument : IdMap ℤ
new_instrument = (negsuc 4, pos 6) ∷ []

-- A deposit on an account that is new itself.
abbrev first_deposit : DomainTransaction
first_deposit = row_of (negsuc 1) TransactionData.cash_data (negsuc 3)

commit_renamed_cash_example :
    commit counting new_account [] []
      (store_of (record { value = first_deposit; state = StoreState.new } ∷ []))
      10
    ≡ (
      err (Failure.thrown Exception.logic_error),
      store_of (record { value = first_deposit; state = StoreState.new } ∷ []),
      10,
    )
unfolding has_key at
commit_renamed_cash_example =
    commit_renamed_cash new_account [] [] counting first_deposit []
      (store_of (record { value = first_deposit; state = StoreState.new } ∷ [])) 10 refl refl refl

-- A database whose row 3 is older than what the store has.
abbrev two_old_rows : TransactionService ℕ
two_old_rows = record {
  add_transaction = λ t n. (ok (pos n), suc n);
  read_transactions = λ f n.
      row_of (pos 3) TransactionData.cash_data (pos 2)
      ∷ row_of (pos 4) TransactionData.cash_data (pos 2)
      ∷ [];
  add-is_row = λ t n i h. ap is_negative (sym (ok_eq h));
}

abbrev any_account : TransactionFilter
any_account = record { position_ids = []; transaction_ids = []; account_ids = pos 1 ∷ pos 2 ∷ [] }

under-merged_example :
    under (pos 3) (merged two_old_rows any_account (λ t. true) three_rows 10)
    ≡ under (pos 3) (held_in (λ t. true) three_rows)
unfolding contains
under-merged_example = under-merged two_old_rows any_account (λ t. true) three_rows 10 (pos 3)

-- A database of positions that counts its rows.
abbrev counting_positions : PositionService ℕ
counting_positions = record {
  create_position = λ p n. (ok (pos n), suc n);
  read_positions = λ ids n. [];
  read_open_positions = λ ids n. [];
  create-is_row = λ p n i h. ap is_negative (sym (ok_eq h));
}

abbrev two_positions : BaseStore Position
two_positions = record {
  entries =
      record {
        value = record { id = pos 2; created_at = pos 1; closed_at = none };
        state = StoreState.clean;
      }
      ∷ record {
        value = record { id = negsuc 1; created_at = pos 3; closed_at = none };
        state = StoreState.new;
      }
      ∷ [];
  is_potentially_dirty = true;
  id_remap = [];
  updated = [];
  added = [];
  removed = [];
  next_id = negsuc 2;
  already_notified = false;
  full_cache = true;
  sent = [];
}

commit_positions-walk_example :
    (view (commit_positions counting_positions two_positions 7)
      ≡ walk
          (store_row
            (λ p v. with_id positions p (counting_positions.create_position p v))
            (λ old new v. v)
            (Failure.thrown Exception.not_yet_implemented))
          two_positions.entries
          7)
    × ((commit_positions counting_positions two_positions 7).0 ≡ ok tt
        → is_dirty (commit_positions counting_positions two_positions 7).1 ≡ false)
unfolding savable
commit_positions-walk_example = commit_positions-walk counting_positions two_positions 7 refl
