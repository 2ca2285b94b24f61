-- ===== src/Examples/Transactions.antt =====
-- Witnesses for transactions: one account of each kind, and transactions in dollars.
use molar_tracker.Base.{◌≡◌, refl, none, some, [], ◌∷◌, ◌++◌, true, false, ◌&&◌, ◌||◌, ok}
use molar_tracker.Base.Int.{ℤ, pos, ◌+ℤ◌}
use molar_tracker.Common.Cash.{Cash, negate}
use molar_tracker.Common.Currency.{Currency}
use molar_tracker.Common.Container.Map.{at}
use molar_tracker.Finance.Pnl.State.{OptionBuySell, TransactionOptionAction}
use molar_tracker.Finance.Account.{
  Account, AccountKind, AccountStatus, Accounts, contains_account, filter_external,
  get_corresponding_external_account_id,
}
use molar_tracker.Finance.Transaction.{
  Transaction, SecurityTransaction, CashTransaction, StockTransaction, OptionTransaction,
  TransactionStatus, TransactionDataType, TransactionEntryType, TransactionData, get_fee_entry,
}
use molar_tracker.Finance.Transaction.CashEntries
use molar_tracker.Finance.Transaction.StockEntries
use molar_tracker.Finance.Transaction.OptionEntries
use molar_tracker.Finance.Transaction.Balance.{
  IsBalanced, total, total_legs, get_entries-IsBalanced,
}
use molar_tracker.Finance.Transaction.Domain.{DomainTransaction, filter_type, legs_of}
use molar_tracker.Finance.Transaction.Converter.{
  cash_to_domain, stock_to_domain, option_to_domain, to_cash, to_stock, to_option,
  stored_transaction,
}
use molar_tracker.Finance.Transaction.Converter.RoundTrip.{
  read_back, read_security, to_stock-stock_to_domain, to_option-option_to_domain,
  to_cash-cash_to_domain, to_cash-swapped,
}
use molar_tracker.Finance.Transaction.Filter.{
  get_predicate, judges, has_an_account, has_a_transaction, get_predicate_lem,
}
use molar_tracker.Finance.Transaction.Transactions.{
  Transactions, no_transactions, and_then, add_transactions, group_by_position,
}
use molar_tracker.Finance.Transaction.Transactions.Adding.{add_transactions-append}
use molar_tracker.Finance.Transaction.Transactions.Grouping.{at-group_by_position}

abbrev dollars : ℤ → Cash
dollars a = record { currency = Currency.usd; amount = a }

abbrev account : ℤ → AccountKind → Account
account i k = record {
  id = i;
  status = AccountStatus.active;
  name = [];
  currency = Currency.usd;
  kind = k;
}

abbrev three_accounts : Accounts
three_accounts =
    account (pos 5) AccountKind.security_kind
    ∷ account (pos 1) AccountKind.cash_kind
    ∷ account (pos 9) AccountKind.external_kind
    ∷ []

abbrev money_side : TransactionDataType → Transaction
money_side k = record {
  base = record {
    id = pos 3;
    timestamp = pos 1700000000;
    status = TransactionStatus.completed;
    comment = some (104 ∷ 105 ∷ []);
  };
  cash_account = pos 1;
  external_account = pos 9;
  data_type = k;
  fees = dollars (pos 2);
}

abbrev security_side : TransactionDataType → ℤ → SecurityTransaction
security_side k position = record {
  transaction = money_side k;
  instrument_id = pos 7;
  security_account = pos 5;
  quantity = record { value = pos 300000000 };
  position_id = position;
}

abbrev bought : ℤ → StockTransaction
bought position = record {
  security = security_side TransactionDataType.stock_type position;
  unit_price = dollars (pos 40);
}

abbrev sold_put : OptionTransaction
sold_put = record {
  security = security_side TransactionDataType.option_type (pos 4);
  premium = dollars (pos 15);
  action = TransactionOptionAction.opening;
  buy_sell = OptionBuySell.sell;
  rolled_option = none;
}

abbrev deposit : CashTransaction
deposit = record {
  transaction = money_side TransactionDataType.cash_type;
  amount = dollars (pos 500);
}

to_stock-stock_to_domain_example :
    (d : DomainTransaction) × (stock_to_domain (bought (pos 4)) three_accounts ≡ ok d)
    × (to_stock d
        ≡ ok (record (bought (pos 4)) {
          security =
              read_security TransactionDataType.stock_type
                (pos 9)
                (security_side TransactionDataType.stock_type (pos 4));
        }))
unfolding get_corresponding_external_account_id
to_stock-stock_to_domain_example =
    to_stock-stock_to_domain (bought (pos 4)) three_accounts refl refl

to_option-option_to_domain_example :
    (d : DomainTransaction) × (option_to_domain sold_put three_accounts ≡ ok d)
    × (to_option d
        ≡ ok (record sold_put {
          security =
              read_security TransactionDataType.option_type
                (pos 9)
                (security_side TransactionDataType.option_type (pos 4));
        }))
unfolding get_corresponding_external_account_id
to_option-option_to_domain_example = to_option-option_to_domain sold_put three_accounts refl refl

to_cash-cash_to_domain_example :
    (d : DomainTransaction) × (cash_to_domain deposit three_accounts ≡ ok d)
    × (to_cash d three_accounts
        ≡ ok (record deposit {
          transaction =
              read_back TransactionDataType.cash_type
                (pos 9)
                (money_side TransactionDataType.cash_type);
        }))
unfolding get_corresponding_external_account_id
to_cash-cash_to_domain_example = to_cash-cash_to_domain deposit three_accounts refl refl

to_cash-swapped_example :
    to_cash
      (stored_transaction deposit.transaction.base TransactionData.cash_data (
        CashEntries.get_amount_entry deposit (some (pos 9))
        ∷ CashEntries.get_amount_entry deposit none
        ∷ get_fee_entry deposit.transaction none
        ∷ get_fee_entry deposit.transaction (some (pos 9))
        ∷ []))
      three_accounts
    ≡ ok (record {
      transaction =
          read_back TransactionDataType.cash_type
            (pos 9)
            (money_side TransactionDataType.cash_type);
      amount = negate (dollars (pos 500));
    })
unfolding get_corresponding_external_account_id contains_account filter_external
to_cash-swapped_example = to_cash-swapped deposit three_accounts refl refl refl

get_entries-IsBalanced_example :
    IsBalanced (CashEntries.get_entries deposit (pos 9))
    × IsBalanced (OptionEntries.get_entries sold_put (pos 9))
    × (total (
          filter_type TransactionEntryType.fees_entry
            (StockEntries.get_entries (bought (pos 4)) (pos 9)))
        ≡ pos 0)
    × (total (
            filter_type TransactionEntryType.general_entry
              (StockEntries.get_entries (bought (pos 4)) (pos 9)))
          +ℤ total_legs (legs_of (StockEntries.get_stock_data (bought (pos 4))))
        ≡ pos 0)
get_entries-IsBalanced_example = get_entries-IsBalanced deposit sold_put (bought (pos 4)) (pos 9)

-- A stored stock transaction with no entries.
abbrev bare : DomainTransaction
bare = stored_transaction deposit.transaction.base (TransactionData.stock_data []) []

add_transactions-append_example :
    add_transactions ((bare ∷ []) ++ bare ∷ []) three_accounts no_transactions
    ≡ and_then
        (add_transactions (bare ∷ []) three_accounts no_transactions)
        (add_transactions (bare ∷ []) three_accounts)
add_transactions-append_example =
    add_transactions-append (bare ∷ []) (bare ∷ []) three_accounts no_transactions

-- Two positions.
abbrev traded : Transactions
traded = record {
  cash = deposit ∷ [];
  stocks = bought (pos 4) ∷ bought (pos 6) ∷ bought (pos 4) ∷ [];
  options = sold_put ∷ [];
}

at-group_by_position_example :
    at (group_by_position traded) (pos 4)
    ≡ some (record {
      cash = [];
      stocks = bought (pos 4) ∷ bought (pos 4) ∷ [];
      options = sold_put ∷ [];
    })
at-group_by_position_example = at-group_by_position traded (pos 4) refl

get_predicate_lem_example :
    judges
      (get_predicate
        (record { position_ids = []; transaction_ids = pos 3 ∷ []; account_ids = pos 1 ∷ [] }))
      bare
    ≡ ok (
        has_an_account (pos 1 ∷ []) bare
        && (true && (false || has_a_transaction (pos 3 ∷ []) bare)))
get_predicate_lem_example =
    get_predicate_lem
      (record { position_ids = []; transaction_ids = pos 3 ∷ []; account_ids = pos 1 ∷ [] }) bare
