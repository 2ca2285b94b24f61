-- ===== src/SqlModels/Masters.antt =====
-- The rows of profiles, accounts, instruments and positions (sql_models/include/sql_models and
-- sql_models/src/sql_models).
use molar_tracker.Base.{[], ◌∷◌, some}
use molar_tracker.Base.Int.{ℤ}
use molar_tracker.Base.Text.{Text, codes}
use molar_tracker.Filter.ExprNode.{make_and}
use molar_tracker.Orm.Field.{
  Column, enum_kind, string_kind, strong_id_kind, timestamp_kind, string_value, integer_kind,
  strong_id_value, enum_value, integer_value, timestamp_value,
}
use molar_tracker.Orm.Where.{WhereExpr, Operator, make_where, make_is_null, make_empty_where}
use molar_tracker.Orm.Model.{Model}
use molar_tracker.SqlModels.Columns.{
  plain, restricts, id_field, unique, not_null, optional, cascades, currencies, option_types,
  account_kinds, asset_classes, account_statuses,
}

abbrev pub profile_table : Text
profile_table = codes "profile"

abbrev pub profile_name_column : Column
profile_name_column = unique (not_null (plain profile_table (codes "name") string_kind))

-- `ProfileRow`
abbrev pub profile_model : Model
profile_model = record {
  table_name = profile_table;
  columns =
      id_field profile_table
      ∷ profile_name_column
      ∷ optional (plain profile_table (codes "email") string_kind)
      ∷ [];
  unique_groups = [];
}

abbrev pub profile_has_name : Text → WhereExpr
profile_has_name name = make_where profile_name_column (some (string_value name)) Operator.equal

abbrev pub account_table : Text
account_table = codes "account"

abbrev pub account_profile_id_column : Column
account_profile_id_column =
    restricts profile_table (plain account_table (codes "profile_id") strong_id_kind)

-- `AccountRow`
abbrev pub account_model : Model
account_model = record {
  table_name = account_table;
  columns =
      id_field account_table
      ∷ not_null (plain account_table (codes "kind") (enum_kind account_kinds))
      ∷ account_profile_id_column
      ∷ not_null (plain account_table (codes "name") string_kind)
      ∷ not_null (plain account_table (codes "status") (enum_kind account_statuses))
      ∷ not_null (plain account_table (codes "currency") (enum_kind currencies))
      ∷ [];
  unique_groups = (codes "profile_id" ∷ codes "kind" ∷ codes "name" ∷ []) ∷ [];
}

abbrev pub account_has_profile_id : ℤ → WhereExpr
account_has_profile_id i =
    make_where account_profile_id_column (some (strong_id_value i)) Operator.equal

abbrev pub instrument_table : Text
instrument_table = codes "instrument"

-- `InstrumentRow`
abbrev pub instrument_model : Model
instrument_model = record {
  table_name = instrument_table;
  columns = id_field instrument_table ∷ [];
  unique_groups = [];
}

abbrev pub stock_table : Text
stock_table = codes "stock"

abbrev pub stock_ticker_column : Column
stock_ticker_column = unique (not_null (plain stock_table (codes "ticker") string_kind))

abbrev pub stock_currency_column : Column
stock_currency_column = not_null (plain stock_table (codes "currency") (enum_kind currencies))

abbrev pub stock_short_name_column : Column
stock_short_name_column = not_null (plain stock_table (codes "short_name") string_kind)

abbrev pub stock_long_name_column : Column
stock_long_name_column = not_null (plain stock_table (codes "long_name") string_kind)

abbrev pub stock_asset_class_column : Column
stock_asset_class_column =
    not_null (plain stock_table (codes "asset_class") (enum_kind asset_classes))

abbrev pub stock_sector_column : Column
stock_sector_column = not_null (plain stock_table (codes "sector") string_kind)

abbrev pub stock_industry_column : Column
stock_industry_column = not_null (plain stock_table (codes "industry") string_kind)

abbrev pub stock_exchange_column : Column
stock_exchange_column = not_null (plain stock_table (codes "exchange") string_kind)

-- `StockRow`
abbrev pub stock_model : Model
stock_model = record {
  table_name = stock_table;
  columns =
      id_field stock_table
      ∷ stock_ticker_column
      ∷ not_null
          (cascades instrument_table (plain stock_table (codes "instrument_id") strong_id_kind))
      ∷ stock_currency_column
      ∷ stock_short_name_column
      ∷ stock_long_name_column
      ∷ stock_asset_class_column
      ∷ stock_sector_column
      ∷ stock_industry_column
      ∷ stock_exchange_column
      ∷ [];
  unique_groups = [];
}

abbrev pub stock_has_ticker : Text → WhereExpr
stock_has_ticker ticker = make_where stock_ticker_column (some (string_value ticker)) Operator.equal

abbrev pub option_table : Text
option_table = codes "option"

abbrev pub option_underlying_instrument_id_column : Column
option_underlying_instrument_id_column = not_null (
    restricts instrument_table
      (plain option_table (codes "underlying_instrument_id") strong_id_kind))

abbrev pub option_option_type_column : Column
option_option_type_column =
    not_null (plain option_table (codes "option_type") (enum_kind option_types))

abbrev pub option_strike_price_column : Column
option_strike_price_column = not_null (plain option_table (codes "strike_price") integer_kind)

abbrev pub option_expiration_date_column : Column
option_expiration_date_column =
    not_null (plain option_table (codes "expiration_date") timestamp_kind)

-- `OptionRow`
abbrev pub option_model : Model
option_model = record {
  table_name = option_table;
  columns =
      id_field option_table
      ∷ not_null
          (cascades instrument_table (plain option_table (codes "instrument_id") strong_id_kind))
      ∷ option_underlying_instrument_id_column
      ∷ option_option_type_column
      ∷ option_strike_price_column
      ∷ option_expiration_date_column
      ∷ not_null (plain option_table (codes "currency") (enum_kind currencies))
      ∷ not_null (plain option_table (codes "contract_size") integer_kind)
      ∷ [];
  unique_groups =
      (codes "underlying_instrument_id"
        ∷ codes "option_type"
        ∷ codes "strike_price"
        ∷ codes "expiration_date"
        ∷ codes "contract_size"
        ∷ [])
      ∷ [];
}

unfoldable pub option_has_name : ℤ → Text → ℤ → ℤ → WhereExpr
option_has_name underlying option_type strike_price expiration_date =
    make_and
      (make_and
        (make_and
          (make_and (make_empty_where) (
            make_where option_underlying_instrument_id_column (some (strong_id_value underlying))
              Operator.equal))
          (make_where option_option_type_column (some (enum_value option_type)) Operator.equal))
        (make_where option_strike_price_column (some (integer_value strike_price)) Operator.equal))
      (make_where option_expiration_date_column (some (timestamp_value expiration_date))
        Operator.equal)

abbrev pub position_table : Text
position_table = codes "position"

abbrev pub position_closed_at_column : Column
position_closed_at_column = optional (plain position_table (codes "closed_at") timestamp_kind)

-- `PositionRow`
abbrev pub position_model : Model
position_model = record {
  table_name = position_table;
  columns =
      id_field position_table
      ∷ not_null (plain position_table (codes "opened_at") timestamp_kind)
      ∷ position_closed_at_column
      ∷ [];
  unique_groups = [];
}

-- `IsOpen`
abbrev pub is_open : WhereExpr
is_open = make_is_null position_closed_at_column
