-- ===== src/Finance/Transaction/Converter/RoundTrip.antt =====
-- A transaction that is stored and read again (finance/src/finance/transaction/transaction_converter.cpp).
use molar_tracker.Base.{◌≡◌, refl, none, some, [], ◌∷◌, Bool, true, false, ◌||◌, ok, arith}
use molar_tracker.Base.Int.{ℤ, pos, ◌+ℤ◌, eqb_ℤ, eqb_ℤ-refl, int_laws}
use molar_tracker.Common.Cash.{Cash, add_assign, take_currency, times, negate}
use molar_tracker.Common.Currency.{Currency}
use molar_tracker.Common.Id.{is_valid_id}
use molar_tracker.Finance.Account.{
  Accounts, get_corresponding_external_account_id, contains_account, filter_external,
}
use molar_tracker.Finance.Account.External.{get_corresponding_external_account_id-contains}
use molar_tracker.Finance.Transaction.{
  Transaction, SecurityTransaction, CashTransaction, StockTransaction, OptionTransaction,
  TransactionDataType, TransactionData, get_fee_entry,
}
use molar_tracker.Finance.Transaction.CashEntries
use molar_tracker.Finance.Transaction.StockEntries
use molar_tracker.Finance.Transaction.OptionEntries
use molar_tracker.Finance.Transaction.Domain.{DomainTransaction, filter_type}
use molar_tracker.Finance.Transaction.Converter.{
  cash_to_domain, stock_to_domain, option_to_domain, to_cash, to_stock, to_option, check_entries,
  security_fees, cash_fees, stock_of_amounts, stock_of_data, option_of_amounts, option_of_data,
  cash_of_amounts, find_accounts, no_fees, stored_transaction,
}

or_true : (b : Bool) → (b || true) ≡ true
or_true b = ground arith

zero-+ℤ : (a : ℤ) → pos 0 +ℤ a ≡ a
zero-+ℤ a = omega int_laws

add_assign-no_fees : (c : Currency) (f : Cash) → f.currency ≡ c → add_assign (no_fees c) f ≡ ok f
unfolding add_assign take_currency
add_assign-no_fees c f h = rw h (ground (arith, zero-+ℤ f.amount))

-- What comes back: the transaction without its comment, with the external account that was found.
abbrev pub read_back : TransactionDataType → ℤ → Transaction → Transaction
read_back kind e t = record {
  base = record {
    id = t.base.id;
    timestamp = t.base.timestamp;
    status = t.base.status;
    comment = none;
  };
  cash_account = t.cash_account;
  external_account = e;
  data_type = kind;
  fees = t.fees;
}

abbrev pub read_security : TransactionDataType → ℤ → SecurityTransaction → SecurityTransaction
read_security kind e s = record s { transaction = read_back kind e s.transaction }

abbrev pub external_of : Accounts → Transaction → ℤ
external_of accounts t = get_corresponding_external_account_id accounts t.cash_account

-- What is stored for a transaction of each kind.
abbrev stored_cash : CashTransaction → Accounts → DomainTransaction
stored_cash t accounts =
    stored_transaction t.transaction.base TransactionData.cash_data
      (CashEntries.get_entries t (external_of accounts t.transaction))

abbrev stored_stock : StockTransaction → Accounts → DomainTransaction
stored_stock t accounts =
    stored_transaction t.security.transaction.base (StockEntries.get_stock_data t)
      (StockEntries.get_entries t (external_of accounts t.security.transaction))

abbrev stored_option : OptionTransaction → Accounts → DomainTransaction
stored_option t accounts =
    stored_transaction t.security.transaction.base (OptionEntries.get_option_data t)
      (OptionEntries.get_entries t (external_of accounts t.security.transaction))

-- A stock transaction whose fees are in the currency of its price, and whose cash account has an
-- external account, is stored, and reading it again returns it without its comment, with that
-- external account.
pub to_stock-stock_to_domain :
    (t : StockTransaction) (accounts : Accounts)
    → is_valid_id (external_of accounts t.security.transaction) ≡ true
    → t.security.transaction.fees.currency ≡ t.unit_price.currency
    → (d : DomainTransaction) × (stock_to_domain t accounts ≡ ok d)
      × (to_stock d
          ≡ ok (record t {
            security =
                read_security TransactionDataType.stock_type
                  (external_of accounts t.security.transaction)
                  t.security;
          }))
unfolding stock_to_domain to_stock check_entries stock_of_amounts stock_of_data security_fees
    filter_type StockEntries.get_entries StockEntries.get_stock_data StockEntries.get_amount
    get_fee_entry times negate
to_stock-stock_to_domain t accounts v h = (
  stored_stock t accounts,
  rw v refl,
  rw
      (
        eqb_ℤ-refl t.security.transaction.cash_account,
        add_assign-no_fees t.unit_price.currency t.security.transaction.fees h,
      )
      refl,
)

-- An option transaction whose fees are in the currency of its premium, and whose cash account has an
-- external account, is stored, and reading it again returns it without its comment, with that
-- external account.
pub to_option-option_to_domain :
    (t : OptionTransaction) (accounts : Accounts)
    → is_valid_id (external_of accounts t.security.transaction) ≡ true
    → t.security.transaction.fees.currency ≡ t.premium.currency
    → (d : DomainTransaction) × (option_to_domain t accounts ≡ ok d)
      × (to_option d
          ≡ ok (record t {
            security =
                read_security TransactionDataType.option_type
                  (external_of accounts t.security.transaction)
                  t.security;
          }))
unfolding option_to_domain to_option check_entries option_of_amounts option_of_data security_fees
    filter_type OptionEntries.get_entries OptionEntries.get_option_data get_fee_entry negate
to_option-option_to_domain t accounts v h = (
  stored_option t accounts,
  rw v refl,
  rw
      (
        eqb_ℤ-refl t.security.transaction.cash_account,
        add_assign-no_fees t.premium.currency t.security.transaction.fees h,
      )
      refl,
)

-- A cash transaction whose fees are in the currency of its amount, and whose cash account has an
-- external account, is stored, and reading it again returns it without its comment, with that
-- external account.
pub to_cash-cash_to_domain :
    (t : CashTransaction) (accounts : Accounts)
    → is_valid_id (external_of accounts t.transaction) ≡ true
    → t.transaction.fees.currency ≡ t.amount.currency
    → (d : DomainTransaction) × (cash_to_domain t accounts ≡ ok d)
      × (to_cash d accounts
          ≡ ok (record t {
            transaction =
                read_back TransactionDataType.cash_type
                  (external_of accounts t.transaction)
                  t.transaction;
          }))
unfolding cash_to_domain to_cash check_entries cash_of_amounts cash_fees find_accounts filter_type
    CashEntries.get_entries CashEntries.get_amount_entry get_fee_entry negate
to_cash-cash_to_domain t accounts v h =
    let c = get_corresponding_external_account_id-contains accounts t.transaction.cash_account v in
    (
      stored_cash t accounts,
      rw v refl,
      rw
          (
            c.1,
            c.0,
            eqb_ℤ-refl t.transaction.cash_account,
            eqb_ℤ-refl (external_of accounts t.transaction),
            or_true (eqb_ℤ (external_of accounts t.transaction) t.transaction.cash_account),
            add_assign-no_fees t.amount.currency t.transaction.fees h,
          )
          refl,
    )

-- A stored cash transaction with its two amount entries the other way round, whose external account
-- was found and is not an internal one and whose fees are in the currency of its amount, is read
-- with the same accounts, but the amount is that of the external account, with the opposite sign.
pub to_cash-swapped :
    (t : CashTransaction) (accounts : Accounts)
    → is_valid_id (external_of accounts t.transaction) ≡ true
    → contains_account (filter_external false accounts) (external_of accounts t.transaction) ≡ false
    → t.transaction.fees.currency ≡ t.amount.currency
    → to_cash
        (stored_transaction t.transaction.base TransactionData.cash_data (
          CashEntries.get_amount_entry t (some (external_of accounts t.transaction))
          ∷ CashEntries.get_amount_entry t none
          ∷ get_fee_entry t.transaction none
          ∷ get_fee_entry t.transaction (some (external_of accounts t.transaction))
          ∷ []))
        accounts
      ≡ ok (record {
        transaction =
            read_back TransactionDataType.cash_type
              (external_of accounts t.transaction)
              t.transaction;
        amount = negate t.amount;
      })
unfolding to_cash check_entries cash_of_amounts cash_fees find_accounts filter_type
    CashEntries.get_amount_entry get_fee_entry negate
to_cash-swapped t accounts v x h =
    let c = get_corresponding_external_account_id-contains accounts t.transaction.cash_account v in
    rw
      (
        x,
        c.1,
        c.0,
        eqb_ℤ-refl t.transaction.cash_account,
        eqb_ℤ-refl (external_of accounts t.transaction),
        or_true (eqb_ℤ (external_of accounts t.transaction) t.transaction.cash_account),
        add_assign-no_fees t.amount.currency t.transaction.fees h,
      )
      refl
