-- ===== src/Finance/Transaction/Converter.antt =====
-- Conversions between stored transactions and those of each kind
-- (finance/src/finance/transaction/transaction_converter.cpp).
use molar_tracker.Base.{
  ℕ, ◌≡◌, Option, none, some, List, [], ◌∷◌, ◌++◌, Bool, true, false, not, ◌||◌, ◌&&◌,
  if◌then◌else◌, Result, ok, err, ◌>>=◌, ◌>>◌, require, length, ◌==◌,
}
use molar_tracker.Base.Int.{ℤ, pos, eqb_ℤ}
use molar_tracker.Common.Cash.{Cash, add_assign}
use molar_tracker.Common.Currency.{Currency}
use molar_tracker.Common.Exception.{Exception, Throws, runtime_error}
use molar_tracker.Common.Id.{invalid_id, is_valid_id}
use molar_tracker.Finance.Account.{
  Accounts, contains_account, filter_external, get_corresponding_external_account_id,
}
use molar_tracker.Finance.Transaction.{
  TransactionEntry, TransactionEntryType, TransactionDataType, TransactionData, TradeLeg,
  OptionData, BaseTransaction, Transaction, CashTransaction, SecurityTransaction, StockTransaction,
  OptionTransaction,
}
use molar_tracker.Finance.Transaction.CashEntries
use molar_tracker.Finance.Transaction.StockEntries
use molar_tracker.Finance.Transaction.OptionEntries
use molar_tracker.Finance.Transaction.Domain.{
  DomainTransaction, filter_type, get_type, first_position,
}
pub mod RoundTrip
pub mod InRange

-- How a conversion ends without a value: an exception, a `FinanceError` of a type, or a read past
-- the end of a vector, which is undefined.
pub data FinanceErrorType : Type 0 where
  invalid_transaction assertion_failed : FinanceErrorType

pub data Refusal : Type 0 where
  thrown : Exception → Refusal
  finance_error : FinanceErrorType → Refusal
  out_of_range : Refusal

abbrev pub Converts : Type 0 → Type 0
Converts A = Result Refusal A

abbrev pub lift : {A : Type 0} → Throws A → Converts A
lift (ok a) = ok a
lift (err e) = err (thrown e)

abbrev pub invalid : Refusal
invalid = finance_error FinanceErrorType.invalid_transaction

-- The number of amount entries that each kind has.
abbrev valid_number : TransactionDataType → ℕ
valid_number TransactionDataType.cash_type = 2
valid_number TransactionDataType.option_type = 2
valid_number TransactionDataType.stock_type = 1

-- `_checkEntries`
unfoldable pub check_entries :
    TransactionDataType → (amounts charges : List TransactionEntry) → Converts (Unit {0})
check_entries kind amounts charges =
    require (not (length amounts == 0 && length charges == 0)) invalid
    >> (require (length amounts == valid_number kind) invalid
        >> require (length charges == 2 || length charges == 0) invalid)

-- What `toDomain` builds; the comment is not passed on.
abbrev pub stored_transaction :
    BaseTransaction → TransactionData → List TransactionEntry → DomainTransaction
stored_transaction b d entries = record {
  base = record { id = b.id; timestamp = b.timestamp; status = b.status; comment = none };
  transaction_data = d;
  entries = entries;
}

-- The stored transaction, or the exception for a cash account with no external account.
abbrev pub stored :
    BaseTransaction → TransactionData → ℤ → (ℤ → List TransactionEntry) → Throws DomainTransaction
stored b d e entries =
    if is_valid_id e then ok (stored_transaction b d (entries e)) else err runtime_error

-- `toDomain`, for each kind of transaction.
unfoldable pub cash_to_domain : CashTransaction → Accounts → Throws DomainTransaction
cash_to_domain t accounts =
    stored t.transaction.base TransactionData.cash_data
      (get_corresponding_external_account_id accounts t.transaction.cash_account)
      (CashEntries.get_entries t)

unfoldable pub stock_to_domain : StockTransaction → Accounts → Throws DomainTransaction
stock_to_domain t accounts =
    stored t.security.transaction.base (StockEntries.get_stock_data t)
      (get_corresponding_external_account_id accounts t.security.transaction.cash_account)
      (StockEntries.get_entries t)

unfoldable pub option_to_domain : OptionTransaction → Accounts → Throws DomainTransaction
option_to_domain t accounts =
    stored t.security.transaction.base (OptionEntries.get_option_data t)
      (get_corresponding_external_account_id accounts t.security.transaction.cash_account)
      (OptionEntries.get_entries t)

-- The internal account and the external one, of two amount entries.
unfoldable pub find_accounts : Accounts → (a b : TransactionEntry) → Converts (ℤ × ℤ)
find_accounts accounts a b =
    if contains_account (filter_external false accounts) a.account_id
    then ok (a.account_id, b.account_id)
    else if contains_account (filter_external false accounts) b.account_id
    then ok (b.account_id, a.account_id)
    else err invalid

abbrev pub no_fees : Currency → Cash
no_fees c = record { currency = c; amount = pos 0 }

-- The fees of a cash transaction.
unfoldable pub cash_fees :
    (internal external : ℤ) → Currency → List TransactionEntry → Converts Cash
cash_fees i e c (f ∷ g ∷ []) =
    require (eqb_ℤ i f.account_id || eqb_ℤ i g.account_id) invalid
    >> (require (eqb_ℤ e f.account_id || eqb_ℤ e g.account_id) invalid
        >> lift (add_assign (no_fees c) (if eqb_ℤ i f.account_id then f.cash else g.cash)))
cash_fees i e c (f ∷ g ∷ h ∷ r) = ok (no_fees c)
cash_fees i e c (f ∷ []) = ok (no_fees c)
cash_fees i e c [] = ok (no_fees c)

-- `toCash` behind the check of the entries.
unfoldable pub cash_of_amounts :
    DomainTransaction
    → Accounts
    → (amounts charges : List TransactionEntry) → Converts CashTransaction
cash_of_amounts d accounts (a ∷ b ∷ []) charges = do
  p ← find_accounts accounts a b
  require (contains_account (filter_external true accounts) p.1)
      (finance_error FinanceErrorType.assertion_failed)
  fees ← cash_fees p.0 p.1 a.cash.currency charges
  ok (record {
    transaction = record {
      base = d.base;
      cash_account = p.0;
      external_account = p.1;
      data_type = TransactionDataType.cash_type;
      fees = fees;
    };
    amount = a.cash;
  })
cash_of_amounts d accounts (a ∷ b ∷ c ∷ r) charges =
    err (finance_error FinanceErrorType.assertion_failed)
cash_of_amounts d accounts (a ∷ []) charges = err (finance_error FinanceErrorType.assertion_failed)
cash_of_amounts d accounts [] charges = err (finance_error FinanceErrorType.assertion_failed)

unfoldable pub to_cash : DomainTransaction → Accounts → Converts CashTransaction
to_cash d accounts =
    let amounts = filter_type TransactionEntryType.general_entry d.entries in
    let charges = filter_type TransactionEntryType.fees_entry d.entries in
    check_entries (get_type d) amounts charges >> cash_of_amounts d accounts amounts charges

-- The external account and the fees of a stock or option transaction.
unfoldable pub security_fees : ℤ → Currency → List TransactionEntry → Converts (ℤ × Cash)
security_fees i c (f ∷ g ∷ []) =
    require (eqb_ℤ i f.account_id || eqb_ℤ i g.account_id) invalid >> (do
      fees ← lift (add_assign (no_fees c) (if eqb_ℤ i f.account_id then f.cash else g.cash))
      ok (if eqb_ℤ i f.account_id then g.account_id else f.account_id, fees))
security_fees i c (f ∷ g ∷ h ∷ r) = ok (invalid_id, no_fees c)
security_fees i c (f ∷ []) = ok (invalid_id, no_fees c)
security_fees i c [] = ok (invalid_id, no_fees c)

-- The part that `toStock` and `toOption` build alike from the one leg.
abbrev security_of :
    DomainTransaction
    → TransactionDataType
    → TransactionEntry
    → ℤ × Cash
    → TradeLeg
    → ℤ
    → SecurityTransaction
security_of d kind a p l position = record {
  transaction = record {
    base = d.base;
    cash_account = a.account_id;
    external_account = p.0;
    data_type = kind;
    fees = p.1;
  };
  instrument_id = l.instrument_id;
  security_account = l.account_id;
  quantity = l.quantity;
  position_id = position;
}

unfoldable pub stock_of_data :
    DomainTransaction → TransactionEntry → ℤ × Cash → TransactionData → Converts StockTransaction
stock_of_data d a p (TransactionData.stock_data (l ∷ [])) = ok (record {
  security = security_of d TransactionDataType.stock_type a p l (first_position (l ∷ []));
  unit_price = l.amount;
})
stock_of_data d a p (TransactionData.stock_data (l ∷ m ∷ r)) = err invalid
stock_of_data d a p (TransactionData.stock_data []) = err invalid
stock_of_data d a p (TransactionData.option_data o) = err invalid
stock_of_data d a p TransactionData.cash_data = err invalid

unfoldable pub stock_of_amounts :
    DomainTransaction → (amounts charges : List TransactionEntry) → Converts StockTransaction
stock_of_amounts d [] charges = err out_of_range
stock_of_amounts d (a ∷ r) charges = do
  p ← security_fees a.account_id a.cash.currency charges
  stock_of_data d a p d.transaction_data

unfoldable pub to_stock : DomainTransaction → Converts StockTransaction
to_stock d =
    let amounts = filter_type TransactionEntryType.general_entry d.entries in
    let charges = filter_type TransactionEntryType.fees_entry d.entries in
    check_entries (get_type d) amounts charges >> stock_of_amounts d amounts charges

-- The one leg of option data.
unfoldable pub option_of_legs :
    DomainTransaction
    → TransactionEntry
    → ℤ × Cash
    → OptionData
    → List TradeLeg
    → Converts OptionTransaction
option_of_legs d a p o (l ∷ []) = ok (record {
  security = security_of d TransactionDataType.option_type a p l l.position_id;
  premium = l.amount;
  action = o.action;
  buy_sell = o.buy_sell;
  rolled_option = o.rolled_option;
})
option_of_legs d a p o (l ∷ m ∷ r) = err invalid
option_of_legs d a p o [] = err invalid

unfoldable pub option_of_data :
    DomainTransaction → TransactionEntry → ℤ × Cash → TransactionData → Converts OptionTransaction
unfolding option_of_legs
option_of_data d a p (TransactionData.option_data o) = option_of_legs d a p o o.legs
option_of_data d a p (TransactionData.stock_data legs) = err invalid
option_of_data d a p TransactionData.cash_data = err invalid

unfoldable pub option_of_amounts :
    DomainTransaction → (amounts charges : List TransactionEntry) → Converts OptionTransaction
option_of_amounts d [] charges = err out_of_range
option_of_amounts d (a ∷ r) charges = do
  p ← security_fees a.account_id a.cash.currency charges
  option_of_data d a p d.transaction_data

unfoldable pub to_option : DomainTransaction → Converts OptionTransaction
to_option d =
    let amounts = filter_type TransactionEntryType.general_entry d.entries in
    let charges = filter_type TransactionEntryType.fees_entry d.entries in
    check_entries (get_type d) amounts charges >> option_of_amounts d amounts charges
