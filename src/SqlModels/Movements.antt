-- ===== src/SqlModels/Movements.antt =====
-- The rows of transactions, their parts, and watch lists (sql_models/include/sql_models and
-- sql_models/src/sql_models).
use molar_tracker.Base.{[], ◌∷◌, some}
use molar_tracker.Base.Int.{ℤ}
use molar_tracker.Base.Text.{Text, codes}
use molar_tracker.Filter.ExprNode.{make_and}
use molar_tracker.Orm.Field.{
  Column, string_kind, strong_id_value, timestamp_kind, string_value, enum_kind, strong_id_kind,
  integer_kind,
}
use molar_tracker.Orm.Where.{WhereExpr, Operator, make_where}
use molar_tracker.Orm.Model.{Model}
use molar_tracker.SqlModels.Masters.{account_table, instrument_table, position_table}
use molar_tracker.SqlModels.Columns.{
  plain, not_null, restricts, id_field, cascades, option_buy_sells, transaction_statuses,
  option_actions, optional, transaction_data_types, currencies, transaction_entry_types,
}

abbrev pub transaction_table : Text
transaction_table = codes "transaction_"

abbrev pub transaction_id_column : Column
transaction_id_column = id_field transaction_table

-- `TransactionRow`
abbrev pub transaction_model : Model
transaction_model = record {
  table_name = transaction_table;
  columns =
      transaction_id_column
      ∷ not_null (plain transaction_table (codes "timestamp") timestamp_kind)
      ∷ not_null (plain transaction_table (codes "status") (enum_kind transaction_statuses))
      ∷ optional (plain transaction_table (codes "comment") string_kind)
      ∷ not_null (plain transaction_table (codes "type") (enum_kind transaction_data_types))
      ∷ [];
  unique_groups = [];
}

abbrev pub transaction_has_transaction_id : ℤ → WhereExpr
transaction_has_transaction_id i =
    make_where transaction_id_column (some (strong_id_value i)) Operator.equal

abbrev pub transaction_entry_table : Text
transaction_entry_table = codes "tx_entry"

abbrev pub transaction_entry_transaction_id_column : Column
transaction_entry_transaction_id_column = not_null (
    cascades transaction_table
      (plain transaction_entry_table (codes "transaction_id") strong_id_kind))

abbrev pub transaction_entry_type_column : Column
transaction_entry_type_column =
    not_null (plain transaction_entry_table (codes "type") (enum_kind transaction_entry_types))

-- `TransactionEntryRow`
abbrev pub transaction_entry_model : Model
transaction_entry_model = record {
  table_name = transaction_entry_table;
  columns =
      id_field transaction_entry_table
      ∷ transaction_entry_transaction_id_column
      ∷ not_null (
          restricts account_table
            (plain transaction_entry_table (codes "account_id") strong_id_kind))
      ∷ not_null (plain transaction_entry_table (codes "amount") integer_kind)
      ∷ not_null (plain transaction_entry_table (codes "currency") (enum_kind currencies))
      ∷ transaction_entry_type_column
      ∷ [];
  unique_groups = [];
}

abbrev pub transaction_entry_has_transaction_id : ℤ → WhereExpr
transaction_entry_has_transaction_id i =
    make_where transaction_entry_transaction_id_column (some (strong_id_value i)) Operator.equal

abbrev pub transaction_option_table : Text
transaction_option_table = codes "transaction_option"

abbrev pub transaction_option_transaction_id_column : Column
transaction_option_transaction_id_column = not_null (
    cascades transaction_table
      (plain transaction_option_table (codes "transaction_id") strong_id_kind))

-- `TransactionOptionRow`
abbrev pub transaction_option_model : Model
transaction_option_model = record {
  table_name = transaction_option_table;
  columns =
      id_field transaction_option_table
      ∷ transaction_option_transaction_id_column
      ∷ not_null (plain transaction_option_table (codes "buy_sell") (enum_kind option_buy_sells))
      ∷ not_null (plain transaction_option_table (codes "action") (enum_kind option_actions))
      ∷ optional (
          restricts transaction_table
            (plain transaction_option_table (codes "rolled_option_id") strong_id_kind))
      ∷ [];
  unique_groups = [];
}

abbrev pub transaction_option_has_transaction_id : ℤ → WhereExpr
transaction_option_has_transaction_id i =
    make_where transaction_option_transaction_id_column (some (strong_id_value i)) Operator.equal

abbrev pub trade_leg_table : Text
trade_leg_table = codes "trade_leg"

abbrev pub trade_leg_transaction_id_column : Column
trade_leg_transaction_id_column =
    not_null
      (cascades transaction_table (plain trade_leg_table (codes "transaction_id") strong_id_kind))

abbrev pub trade_leg_position_id_column : Column
trade_leg_position_id_column =
    restricts position_table (plain trade_leg_table (codes "position_id") strong_id_kind)

-- `TradeLegRow`
abbrev pub trade_leg_model : Model
trade_leg_model = record {
  table_name = trade_leg_table;
  columns =
      id_field trade_leg_table
      ∷ trade_leg_transaction_id_column
      ∷ not_null
          (restricts account_table (plain trade_leg_table (codes "account_id") strong_id_kind))
      ∷ not_null (
          restricts instrument_table (plain trade_leg_table (codes "instrument_id") strong_id_kind))
      ∷ not_null (plain trade_leg_table (codes "quantity") integer_kind)
      ∷ not_null (plain trade_leg_table (codes "unit_price") integer_kind)
      ∷ not_null (plain trade_leg_table (codes "currency") (enum_kind currencies))
      ∷ trade_leg_position_id_column
      ∷ [];
  unique_groups = [];
}

abbrev pub trade_leg_has_transaction_id : ℤ → WhereExpr
trade_leg_has_transaction_id i =
    make_where trade_leg_transaction_id_column (some (strong_id_value i)) Operator.equal

abbrev pub trade_leg_has_position : ℤ → WhereExpr
trade_leg_has_position i =
    make_where trade_leg_position_id_column (some (strong_id_value i)) Operator.equal

abbrev pub watchlist_table : Text
watchlist_table = codes "watchlists"

abbrev pub watchlist_id_column : Column
watchlist_id_column = id_field watchlist_table

abbrev pub watchlist_name_column : Column
watchlist_name_column = not_null (plain watchlist_table (codes "name") string_kind)

-- `WatchlistRow`
abbrev pub watchlist_model : Model
watchlist_model = record {
  table_name = watchlist_table;
  columns =
      watchlist_id_column
      ∷ watchlist_name_column
      ∷ not_null (plain watchlist_table (codes "created_at") timestamp_kind)
      ∷ [];
  unique_groups = [];
}

abbrev pub watchlist_has_name : Text → WhereExpr
watchlist_has_name name = make_where watchlist_name_column (some (string_value name)) Operator.equal

abbrev pub watchlist_has_id : ℤ → WhereExpr
watchlist_has_id i = make_where watchlist_id_column (some (strong_id_value i)) Operator.equal

abbrev pub watchlist_instrument_table : Text
watchlist_instrument_table = codes "watchlist_instruments"

abbrev pub watchlist_instrument_watchlist_id_column : Column
watchlist_instrument_watchlist_id_column = not_null (
    cascades watchlist_table
      (plain watchlist_instrument_table (codes "watchlist_id") strong_id_kind))

abbrev pub watchlist_instrument_symbol_column : Column
watchlist_instrument_symbol_column =
    not_null (plain watchlist_instrument_table (codes "symbol") string_kind)

-- `WatchlistInstrumentRow`
abbrev pub watchlist_instrument_model : Model
watchlist_instrument_model = record {
  table_name = watchlist_instrument_table;
  columns =
      id_field watchlist_instrument_table
      ∷ watchlist_instrument_watchlist_id_column
      ∷ watchlist_instrument_symbol_column
      ∷ [];
  unique_groups = (codes "watchlist_id" ∷ codes "symbol" ∷ []) ∷ [];
}

abbrev pub has_watchlist_id : ℤ → WhereExpr
has_watchlist_id i =
    make_where watchlist_instrument_watchlist_id_column (some (strong_id_value i)) Operator.equal

unfoldable pub has_watchlist_id_and_symbol : ℤ → Text → WhereExpr
has_watchlist_id_and_symbol i symbol =
    make_and
      (make_where watchlist_instrument_watchlist_id_column (some (strong_id_value i))
        Operator.equal)
      (make_where watchlist_instrument_symbol_column (some (string_value symbol)) Operator.equal)
