-- ===== src/Finance/Transaction/CashEntries.antt =====
-- Cash transactions (finance/src/finance/transaction/cash_transaction.cpp).
use molar_tracker.Base.{Option, none, some, List, [], ◌∷◌}
use molar_tracker.Base.Int.{ℤ}
use molar_tracker.Common.Cash.{negate}
use molar_tracker.Common.Container.Set.{IdSet, insert}
use molar_tracker.Finance.Transaction.{
  CashTransaction, TransactionEntry, TransactionEntryType, get_fee_entry, new_entry,
}

-- `CashTransaction::_getAmountEntry`
unfoldable pub get_amount_entry : CashTransaction → Option ℤ → TransactionEntry
get_amount_entry t none =
    new_entry t.transaction.cash_account t.amount TransactionEntryType.general_entry
get_amount_entry t (some e) = new_entry e (negate t.amount) TransactionEntryType.general_entry

-- `CashTransaction::getEntries`
unfoldable pub get_entries : CashTransaction → ℤ → List TransactionEntry
unfolding get_amount_entry get_fee_entry
get_entries t e =
    get_amount_entry t none
    ∷ get_amount_entry t (some e)
    ∷ get_fee_entry t.transaction none
    ∷ get_fee_entry t.transaction (some e)
    ∷ []

pub get_involved_accounts : CashTransaction → IdSet
get_involved_accounts t =
    insert (insert [] t.transaction.cash_account) t.transaction.external_account
