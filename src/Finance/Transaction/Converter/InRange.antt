-- ===== src/Finance/Transaction/Converter/InRange.antt =====
-- The conversions never read past the end of the entries
-- (finance/src/finance/transaction/transaction_converter.cpp).
use molar_tracker.Base.{◌≡◌, ◌≢◌, List, [], ◌∷◌, err, ◌>>◌, >>=-ne_err, arith}
use molar_tracker.Base.Int.{ℤ}
use molar_tracker.Common.Cash.{Cash}
use molar_tracker.Common.Currency.{Currency}
use molar_tracker.Finance.Transaction.{TransactionEntry, TransactionData, TransactionDataType}
use molar_tracker.Finance.Transaction.Domain.{DomainTransaction, get_type}
use molar_tracker.Finance.Transaction.Converter.{
  to_stock, to_option, check_entries, stock_of_amounts, option_of_amounts, security_fees,
  stock_of_data, option_of_data, out_of_range, invalid,
}

security_fees_in_range :
    (i : ℤ) (c : Currency) (charges : List TransactionEntry)
    → security_fees i c charges ≢ err out_of_range
unfolding security_fees
security_fees_in_range i c [] = ground arith
security_fees_in_range i c (f ∷ []) = ground arith
security_fees_in_range i c (f ∷ g ∷ []) = ground arith
security_fees_in_range i c (f ∷ g ∷ h ∷ r) = ground arith

module _ (d : DomainTransaction) (a : TransactionEntry) (p : ℤ × Cash) where
  stock_data_in_range : (t : TransactionData) → stock_of_data d a p t ≢ err out_of_range
  unfolding stock_of_data
  stock_data_in_range t = ground arith

  option_data_in_range : (t : TransactionData) → option_of_data d a p t ≢ err out_of_range
  unfolding option_of_data
  option_data_in_range t = ground arith

check_entries_in_range :
    (kind : TransactionDataType) (amounts charges : List TransactionEntry)
    → check_entries kind amounts charges ≢ err out_of_range
unfolding check_entries
check_entries_in_range kind amounts charges = ground arith

-- The check of the entries refuses an empty list of amounts.
check_entries-nil :
    (kind : TransactionDataType) (charges : List TransactionEntry)
    → check_entries kind [] charges ≡ err invalid
unfolding check_entries
check_entries-nil kind charges = ground arith

module _ (d : DomainTransaction) (charges : List TransactionEntry) where
  stock_in_range :
      (amounts : List TransactionEntry)
      → (check_entries (get_type d) amounts charges >> stock_of_amounts d amounts charges)
        ≢ err out_of_range
  unfolding stock_of_amounts
  stock_in_range [] = rw (check_entries-nil (get_type d) charges) (λ q. cc)
  stock_in_range (a ∷ r) =
      >>=-ne_err (check_entries (get_type d) (a ∷ r) charges) _ out_of_range
        (check_entries_in_range (get_type d) (a ∷ r) charges)
        λ _.
          >>=-ne_err (security_fees a.account_id a.cash.currency charges) _ out_of_range
            (security_fees_in_range a.account_id a.cash.currency charges)
            λ p. stock_data_in_range d a p d.transaction_data

  option_in_range :
      (amounts : List TransactionEntry)
      → (check_entries (get_type d) amounts charges >> option_of_amounts d amounts charges)
        ≢ err out_of_range
  unfolding option_of_amounts
  option_in_range [] = rw (check_entries-nil (get_type d) charges) (λ q. cc)
  option_in_range (a ∷ r) =
      >>=-ne_err (check_entries (get_type d) (a ∷ r) charges) _ out_of_range
        (check_entries_in_range (get_type d) (a ∷ r) charges)
        λ _.
          >>=-ne_err (security_fees a.account_id a.cash.currency charges) _ out_of_range
            (security_fees_in_range a.account_id a.cash.currency charges)
            λ p. option_data_in_range d a p d.transaction_data

-- Reading a stored transaction as one of stocks or of options never reads past the end of its
-- entries, whatever it holds.
pub conversions_in_range :
    (d : DomainTransaction) → (to_stock d ≢ err out_of_range) × (to_option d ≢ err out_of_range)
unfolding to_stock to_option
conversions_in_range d = (stock_in_range d _ _, option_in_range d _ _)
