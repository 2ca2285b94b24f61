-- ===== src/Finance/Transaction.antt =====
-- Transactions (finance/include/finance/transaction and finance/src/finance/transaction): the entries
-- that are stored, and the cash, stock and option transactions that they stand for.
use molar_tracker.Base.{
  ◌≡◌, Option, none, some, List, [], ◌∷◌, ◌++◌, Bool, true, false, ◌||◌, any, if◌then◌else◌,
}
use molar_tracker.Base.Int.{ℤ, eqb_ℤ}
use molar_tracker.Base.Text.{Text}
use molar_tracker.Common.Cash.{Cash, negate, times}
use molar_tracker.Common.Container.Set.{IdSet, insert}
use molar_tracker.Common.Id.{invalid_id}
use molar_tracker.Common.Quantity.{Quantity}
use molar_tracker.Finance.Pnl.State.{OptionBuySell, TransactionOptionAction}
pub mod CashEntries
pub mod StockEntries
pub mod OptionEntries
pub mod Domain
pub mod Balance
pub mod Filter
pub mod Converter
pub mod Transactions

pub data TransactionStatus : Type 0 where
  completed removed : TransactionStatus

pub data TransactionEntryType : Type 0 where
  general_entry fees_entry : TransactionEntryType

pub data TransactionDataType : Type 0 where
  cash_type stock_type option_type : TransactionDataType

pub record TransactionEntry : Type 0 where
  pub id : ℤ
  pub account_id : ℤ
  pub cash : Cash
  pub entry_type : TransactionEntryType

abbrev pub entry_type_eq : TransactionEntryType → TransactionEntryType → Bool
entry_type_eq TransactionEntryType.general_entry TransactionEntryType.general_entry = true
entry_type_eq TransactionEntryType.fees_entry TransactionEntryType.fees_entry = true
entry_type_eq _ _ = false

pub record TradeLeg : Type 0 where
  pub account_id : ℤ
  pub instrument_id : ℤ
  pub quantity : Quantity
  pub amount : Cash
  pub position_id : ℤ

-- `TradeLeg::getCash`
unfoldable pub get_cash : TradeLeg → Cash
get_cash l = times l.amount l.quantity

pub record OptionData : Type 0 where
  pub id : ℤ
  pub buy_sell : OptionBuySell
  pub action : TransactionOptionAction
  pub rolled_option : Option ℤ
  pub legs : List TradeLeg

-- `TransactionData`, a variant of `CashData`, `StockData` and `OptionData`.
pub data TransactionData : Type 0 where
  cash_data : TransactionData
  stock_data : List TradeLeg → TransactionData
  option_data : OptionData → TransactionData

pub record BaseTransaction : Type 0 where
  pub id : ℤ
  pub timestamp : ℤ
  pub status : TransactionStatus
  pub comment : Option Text

-- The class `Transaction`.
pub record Transaction : Type 0 where
  pub base : BaseTransaction
  pub cash_account : ℤ
  pub external_account : ℤ
  pub data_type : TransactionDataType
  pub fees : Cash

pub record CashTransaction : Type 0 where
  pub transaction : Transaction
  pub amount : Cash

pub record SecurityTransaction : Type 0 where
  pub transaction : Transaction
  pub instrument_id : ℤ
  pub security_account : ℤ
  pub quantity : Quantity
  pub position_id : ℤ

pub record StockTransaction : Type 0 where
  pub security : SecurityTransaction
  pub unit_price : Cash

pub record OptionTransaction : Type 0 where
  pub security : SecurityTransaction
  pub premium : Cash
  pub action : TransactionOptionAction
  pub buy_sell : OptionBuySell
  pub rolled_option : Option ℤ

-- An entry that is not stored yet, for the account and with the amount given.
abbrev pub new_entry : ℤ → Cash → TransactionEntryType → TransactionEntry
new_entry account cash kind = record {
  id = invalid_id;
  account_id = account;
  cash = cash;
  entry_type = kind;
}

-- `_getFeeEntry`: the fees on the cash account, or their negative on an external one.
unfoldable pub get_fee_entry : Transaction → Option ℤ → TransactionEntry
get_fee_entry t none = new_entry t.cash_account t.fees TransactionEntryType.fees_entry
get_fee_entry t (some e) = new_entry e (negate t.fees) TransactionEntryType.fees_entry

-- `SecurityTransaction::getInvolvedAccounts`
pub get_security_accounts : SecurityTransaction → IdSet
get_security_accounts t =
    insert (insert (insert [] t.transaction.cash_account) t.transaction.external_account)
      t.security_account
