-- ===== src/Finance/Transaction/OptionEntries.antt =====
-- Option transactions (finance/src/finance/transaction/option_transaction.cpp).
use molar_tracker.Base.{none, some, List, [], ◌∷◌}
use molar_tracker.Base.Int.{ℤ}
use molar_tracker.Common.Cash.{negate}
use molar_tracker.Common.Id.{invalid_id}
use molar_tracker.Finance.Transaction.{
  OptionTransaction, TransactionEntry, TransactionEntryType, TransactionData, get_fee_entry,
  new_entry,
}

-- `OptionTransaction::getEntries`
unfoldable pub get_entries : OptionTransaction → ℤ → List TransactionEntry
unfolding get_fee_entry
get_entries t e =
    new_entry t.security.transaction.cash_account t.premium TransactionEntryType.general_entry
    ∷ new_entry e (negate t.premium) TransactionEntryType.general_entry
    ∷ get_fee_entry t.security.transaction none
    ∷ get_fee_entry t.security.transaction (some e)
    ∷ []

-- `OptionTransaction::getOptionData`
unfoldable pub get_option_data : OptionTransaction → TransactionData
get_option_data t = TransactionData.option_data (record {
  id = invalid_id;
  buy_sell = t.buy_sell;
  action = t.action;
  rolled_option = t.rolled_option;
  legs =
      record {
        account_id = t.security.security_account;
        instrument_id = t.security.instrument_id;
        quantity = t.security.quantity;
        amount = t.premium;
        position_id = t.security.position_id;
      }
      ∷ [];
})
