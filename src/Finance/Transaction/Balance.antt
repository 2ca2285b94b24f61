-- ===== src/Finance/Transaction/Balance.antt =====
-- The entries of a transaction add up (finance/src/finance/transaction: `getEntries` of cash, stock
-- and option transactions).
use molar_tracker.Base.{◌≡◌, List, [], ◌∷◌}
use molar_tracker.Base.Int.{ℤ, pos, ◌+ℤ◌, int_laws}
use molar_tracker.Common.Cash.{negate}
use molar_tracker.Finance.Transaction.{
  TransactionEntry, TransactionEntryType, CashTransaction, StockTransaction, OptionTransaction,
  TradeLeg, get_fee_entry, get_cash,
}
use molar_tracker.Finance.Transaction.CashEntries
use molar_tracker.Finance.Transaction.StockEntries
use molar_tracker.Finance.Transaction.OptionEntries
use molar_tracker.Finance.Transaction.Domain.{filter_type, legs_of}

-- The sum of the amounts of some entries, and of the amounts of some legs.
abbrev pub total : List TransactionEntry → ℤ
total [] = pos 0
total (e ∷ es) = e.cash.amount +ℤ total es

abbrev pub total_legs : List TradeLeg → ℤ
total_legs [] = pos 0
total_legs (l ∷ ls) = (get_cash l).amount +ℤ total_legs ls

-- The entries of either type cancel out.
abbrev pub IsBalanced : List TransactionEntry → Type 0
IsBalanced es =
    (total (filter_type TransactionEntryType.general_entry es) ≡ pos 0)
    × (total (filter_type TransactionEntryType.fees_entry es) ≡ pos 0)

-- The entries of a cash transaction cancel out for amounts and for fees, and so do those of an
-- option transaction; for a stock transaction the fees do, and the amount cancels out with what the
-- trade legs are worth.
pub get_entries-IsBalanced :
    (t : CashTransaction) (o : OptionTransaction) (s : StockTransaction) (e : ℤ)
    → IsBalanced (CashEntries.get_entries t e)
      × IsBalanced (OptionEntries.get_entries o e)
      × (total (filter_type TransactionEntryType.fees_entry (StockEntries.get_entries s e)) ≡ pos 0)
      × (total (filter_type TransactionEntryType.general_entry (StockEntries.get_entries s e))
            +ℤ total_legs (legs_of (StockEntries.get_stock_data s))
          ≡ pos 0)
unfolding filter_type CashEntries.get_entries OptionEntries.get_entries StockEntries.get_entries
    StockEntries.get_stock_data StockEntries.get_amount get_fee_entry negate get_cash
    CashEntries.get_amount_entry
get_entries-IsBalanced t o s e = (
  (omega int_laws, omega int_laws),
  (omega int_laws, omega int_laws),
  omega int_laws,
  omega int_laws,
)
