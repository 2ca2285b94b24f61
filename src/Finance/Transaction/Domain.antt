-- ===== src/Finance/Transaction/Domain.antt =====
-- Transactions as they are stored (finance/src/finance/transaction/domain_transaction.cpp,
-- transaction_entries.cpp and the data of stocks and options).
use molar_tracker.Base.{
  List, [], ◌∷◌, ◌++◌, Bool, true, false, any, if◌then◌else◌, filter_if, ok, err,
}
use molar_tracker.Base.Int.{ℤ, eqb_ℤ}
use molar_tracker.Common.Container.Set.{IdSet, contains}
use molar_tracker.Common.Exception.{Throws, logic_error}
use molar_tracker.Common.Id.{invalid_id}
use molar_tracker.Finance.Transaction.{
  BaseTransaction, TransactionData, TransactionEntry, TransactionEntryType, TransactionDataType,
  TradeLeg, entry_type_eq,
}

pub record DomainTransaction : Type 0 where
  pub base : BaseTransaction
  pub transaction_data : TransactionData
  pub entries : List TransactionEntry

-- `TransactionEntries::filter`
unfoldable pub filter_type : TransactionEntryType → List TransactionEntry → List TransactionEntry
filter_type kind entries = filter_if (λ e. entry_type_eq e.entry_type kind) entries

pub filter_accounts : IdSet → List TransactionEntry → List TransactionEntry
filter_accounts ids entries = filter_if (λ e. contains ids e.account_id) entries

abbrev pub data_type_of : TransactionData → TransactionDataType
data_type_of TransactionData.cash_data = TransactionDataType.cash_type
data_type_of (TransactionData.stock_data legs) = TransactionDataType.stock_type
data_type_of (TransactionData.option_data d) = TransactionDataType.option_type

-- `DomainTransaction::getType`
abbrev pub get_type : DomainTransaction → TransactionDataType
get_type t = data_type_of t.transaction_data

abbrev pub legs_of : TransactionData → List TradeLeg
legs_of TransactionData.cash_data = []
legs_of (TransactionData.stock_data legs) = legs
legs_of (TransactionData.option_data d) = d.legs

abbrev pub get_legs : DomainTransaction → List TradeLeg
get_legs t = legs_of t.transaction_data

-- `getPositionId` of stock and option data: that of the first leg.
abbrev pub first_position : List TradeLeg → ℤ
first_position [] = invalid_id
first_position (l ∷ legs) = l.position_id

unfoldable pub set_legs_of : TransactionData → List TradeLeg → Throws TransactionData
set_legs_of TransactionData.cash_data legs = err logic_error
set_legs_of (TransactionData.stock_data old) legs = ok (TransactionData.stock_data legs)
set_legs_of (TransactionData.option_data d) legs =
    ok (TransactionData.option_data (record d { legs = legs }))

unfoldable pub with_data : DomainTransaction → Throws TransactionData → Throws DomainTransaction
with_data t (ok d) = ok (record t { transaction_data = d })
with_data t (err e) = err e

-- `setLegs` and `addLeg`
unfoldable pub set_legs : DomainTransaction → List TradeLeg → Throws DomainTransaction
set_legs t legs = with_data t (set_legs_of t.transaction_data legs)

pub add_leg_to : DomainTransaction → TradeLeg → Throws DomainTransaction
add_leg_to t leg = with_data t (set_legs_of t.transaction_data (get_legs t ++ leg ∷ []))

pub add_entry_to : DomainTransaction → TransactionEntry → DomainTransaction
add_entry_to t e = record t { entries = t.entries ++ e ∷ [] }

unfoldable pub set_entries : DomainTransaction → List TransactionEntry → DomainTransaction
set_entries t entries = record t { entries = entries }

unfoldable pub has_position_in : TransactionData → ℤ → Bool
has_position_in TransactionData.cash_data i = false
has_position_in (TransactionData.stock_data legs) i = eqb_ℤ (first_position legs) i
has_position_in (TransactionData.option_data d) i = eqb_ℤ (first_position d.legs) i

unfoldable pub has_position_id : DomainTransaction → ℤ → Bool
unfolding has_position_in
has_position_id t i = has_position_in t.transaction_data i

unfoldable pub has_instrument_id : DomainTransaction → ℤ → Bool
has_instrument_id t i = any (λ l. eqb_ℤ l.instrument_id i) (get_legs t)

unfoldable pub is_account_involved : DomainTransaction → ℤ → Bool
is_account_involved t i =
    if any (λ e. eqb_ℤ e.account_id i) t.entries
    then true
    else any (λ l. eqb_ℤ l.account_id i) (get_legs t)
