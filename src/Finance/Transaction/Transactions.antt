-- ===== src/Finance/Transaction/Transactions.antt =====
-- Collections of transactions by kind (finance/src/finance/transaction/transactions.cpp).
use molar_tracker.Base.{
  ◌≡◌, Option, none, some, List, [], ◌∷◌, ◌++◌, Bool, true, false, ◌&&◌, if◌then◌else◌, filter_if,
  Result, ok, err,
}
use molar_tracker.Base.Int.{ℤ, eqb_ℤ}
use molar_tracker.Common.Container.Map.{IdMap, has_key, add_unchecked, update}
use molar_tracker.Common.Container.Set.{IdSet, insert, combine, intersects}
use molar_tracker.Common.Id.{is_valid_id}
use molar_tracker.Finance.Account.{Accounts}
use molar_tracker.Finance.Transaction.{
  CashTransaction, StockTransaction, OptionTransaction, TransactionData, TransactionDataType,
  get_security_accounts,
}
use molar_tracker.Finance.Transaction.CashEntries
use molar_tracker.Finance.Transaction.Domain.{DomainTransaction}
use molar_tracker.Finance.Transaction.Converter.{
  Refusal, Converts, thrown, finance_error, out_of_range, invalid, to_cash, to_stock, to_option,
}
pub mod Grouping
pub mod Adding

pub record Transactions : Type 0 where
  pub cash : List CashTransaction
  pub stocks : List StockTransaction
  pub options : List OptionTransaction

abbrev pub no_transactions : Transactions
no_transactions = record { cash = []; stocks = []; options = [] }

abbrev pub add_cash : CashTransaction → Transactions → Transactions
add_cash t ts = record ts { cash = ts.cash ++ t ∷ [] }

abbrev pub add_stock : StockTransaction → Transactions → Transactions
add_stock t ts = record ts { stocks = ts.stocks ++ t ∷ [] }

abbrev pub add_option : OptionTransaction → Transactions → Transactions
add_option t ts = record ts { options = ts.options ++ t ∷ [] }

-- The error of a conversion is converted to an invalid transaction; an exception passes through.
pub converted_error : Refusal → Refusal
converted_error (thrown e) = thrown e
converted_error (finance_error e) = invalid
converted_error out_of_range = out_of_range

-- What `addTransactions` has added, and how it ended.
abbrev pub Added : Type 0
Added = Result Refusal (Unit {0}) × Transactions

abbrev add_converted :
    {A : Type 0} → (A → Transactions → Transactions) → Converts A → Transactions → Added
add_converted add (ok t) ts = (ok tt, add t ts)
add_converted add (err e) ts = (err (converted_error e), ts)

-- One round of the loop of `addTransactions`.
unfoldable pub add_domain : TransactionData → DomainTransaction → Accounts → Transactions → Added
add_domain TransactionData.cash_data d accounts ts = add_converted add_cash (to_cash d accounts) ts
add_domain (TransactionData.stock_data legs) d accounts ts = add_converted add_stock (to_stock d) ts
add_domain (TransactionData.option_data o) d accounts ts = add_converted add_option (to_option d) ts

-- Go on with the rest if a round ended well.
abbrev pub and_then : Added → (Transactions → Added) → Added
and_then (ok u, ts) next = next ts
and_then (err e, ts) next = (err e, ts)

unfoldable pub add_transactions : List DomainTransaction → Accounts → Transactions → Added
add_transactions [] accounts ts = (ok tt, ts)
add_transactions (d ∷ ds) accounts ts =
    and_then (add_domain d.transaction_data d accounts ts) (add_transactions ds accounts)

-- The constructor from stored transactions logs an error and keeps what was added before it.
pub from_domain : List DomainTransaction → Accounts → Transactions
from_domain ds accounts = (add_transactions ds accounts no_transactions).1

is_empty_list {ℓ} : {A : Type ℓ} → List A → Bool
is_empty_list [] = true
is_empty_list (x ∷ xs) = false

pub is_empty_transactions : Transactions → Bool
is_empty_transactions ts =
    is_empty_list ts.cash && (is_empty_list ts.stocks && is_empty_list ts.options)

pub contains_options : Transactions → Bool
contains_options ts = if is_empty_list ts.options then false else true

-- `getBaseInstrumentIds` of stock and of option transactions.
pub get_stock_instrument_ids : IdSet → List StockTransaction → IdSet
get_stock_instrument_ids ids [] = ids
get_stock_instrument_ids ids (t ∷ ts) =
    get_stock_instrument_ids (insert ids t.security.instrument_id) ts

pub get_option_instrument_ids : IdSet → List OptionTransaction → IdSet
get_option_instrument_ids ids [] = ids
get_option_instrument_ids ids (t ∷ ts) =
    get_option_instrument_ids (insert ids t.security.instrument_id) ts

-- `SecurityView::getBaseInstrumentIds`
pub get_base_instrument_ids : Transactions → IdSet
get_base_instrument_ids ts =
    combine (get_stock_instrument_ids [] ts.stocks) (get_option_instrument_ids [] ts.options)

-- The two loops of `groupByPosition`.
unfoldable pub group_stock : IdMap Transactions → StockTransaction → IdMap Transactions
group_stock m t =
    let i = t.security.position_id in
    let held = if has_key m i then m else add_unchecked m i no_transactions in
    if is_valid_id i then update (add_stock t) held i else m

unfoldable pub group_option : IdMap Transactions → OptionTransaction → IdMap Transactions
group_option m t =
    let i = t.security.position_id in
    let held = if has_key m i then m else add_unchecked m i no_transactions in
    if is_valid_id i then update (add_option t) held i else m

unfoldable pub group_stocks : IdMap Transactions → List StockTransaction → IdMap Transactions
group_stocks m [] = m
group_stocks m (t ∷ ts) = group_stocks (group_stock m t) ts

unfoldable pub group_options : IdMap Transactions → List OptionTransaction → IdMap Transactions
group_options m [] = m
group_options m (t ∷ ts) = group_options (group_option m t) ts

unfoldable pub group_by_position : Transactions → IdMap Transactions
group_by_position ts = group_options (group_stocks [] ts.stocks) ts.options

is_stock_type : TransactionDataType → Bool
is_stock_type TransactionDataType.stock_type = true
is_stock_type _ = false

is_option_type : TransactionDataType → Bool
is_option_type TransactionDataType.option_type = true
is_option_type _ = false

is_cash_type : TransactionDataType → Bool
is_cash_type TransactionDataType.cash_type = true
is_cash_type _ = false

-- `Transactions::filter`; a transaction whose type is not that of its class is dropped.
pub filter_involved : IdSet → Transactions → Transactions
filter_involved ids ts = record {
  cash =
      filter_if
        (λ t.
          intersects (CashEntries.get_involved_accounts t) ids
          && is_cash_type t.transaction.data_type)
        ts.cash;
  stocks =
      filter_if
        (λ t.
          intersects (get_security_accounts t.security) ids
          && is_stock_type t.security.transaction.data_type)
        ts.stocks;
  options =
      filter_if
        (λ t.
          intersects (get_security_accounts t.security) ids
          && is_option_type t.security.transaction.data_type)
        ts.options;
}
