-- ===== src/Finance/Transaction/StockEntries.antt =====
-- Stock transactions (finance/src/finance/transaction/stock_transaction.cpp).
use molar_tracker.Base.{none, some, List, [], ◌∷◌}
use molar_tracker.Base.Int.{ℤ}
use molar_tracker.Common.Cash.{Cash, negate, times}
use molar_tracker.Finance.Transaction.{
  StockTransaction, TransactionEntry, TransactionEntryType, TransactionData, get_fee_entry,
  new_entry,
}

-- `StockTransaction::getAmount`
unfoldable pub get_amount : StockTransaction → Cash
get_amount t = times t.unit_price t.security.quantity

-- `StockTransaction::getEntries`
unfoldable pub get_entries : StockTransaction → ℤ → List TransactionEntry
unfolding get_amount get_fee_entry
get_entries t e =
    new_entry t.security.transaction.cash_account (negate (get_amount t))
      TransactionEntryType.general_entry
    ∷ get_fee_entry t.security.transaction none
    ∷ get_fee_entry t.security.transaction (some e)
    ∷ []

-- `StockTransaction::getStockData`
unfoldable pub get_stock_data : StockTransaction → TransactionData
get_stock_data t = TransactionData.stock_data (
    record {
      account_id = t.security.security_account;
      instrument_id = t.security.instrument_id;
      quantity = t.security.quantity;
      amount = t.unit_price;
      position_id = t.security.position_id;
    }
    ∷ [])
