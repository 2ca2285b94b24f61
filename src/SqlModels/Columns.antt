-- ===== src/SqlModels/Columns.antt =====
-- The building blocks of the row models (orm/include/orm/constraints.hpp, orm/include/orm/field.hpp,
-- common/include/common/finance.hpp).
use molar_tracker.Base.{none, some, List, [], ◌∷◌, true, false}
use molar_tracker.Base.Text.{Text, codes}
use molar_tracker.Orm.Field.{Kind, strong_id_kind, Column}

-- A field of a table with no option.
abbrev pub plain : (table_name name : Text) → Kind → Column
plain table_name name kind = record {
  name = name;
  table_name = table_name;
  kind = kind;
  is_optional = false;
  is_pk = false;
  is_auto_increment = false;
  is_unique = false;
  is_not_null = false;
  foreign_key = none;
}

-- `std::optional` values.
abbrev pub optional : Column → Column
optional c = record c { is_optional = true }

-- `not_null_t`
abbrev pub not_null : Column → Column
not_null c = record c { is_not_null = true }

-- `unique_t`
abbrev pub unique : Column → Column
unique c = record c { is_unique = true }

-- `IdField`
abbrev pub id_field : Text → Column
id_field table_name = record (plain table_name (codes "id") strong_id_kind) {
  is_pk = true;
  is_auto_increment = true;
  is_unique = true;
}

-- `foreign_key_t` to the identifiers of a table, with `RestrictDelete` and with `CascadeDelete`.
abbrev pub restricts : Text → Column → Column
restricts table c = record c {
  foreign_key = some (record { on_delete_cascade = false; table = table; field = codes "id" });
}

abbrev pub cascades : Text → Column → Column
cascades table c = record c {
  foreign_key = some (record { on_delete_cascade = true; table = table; field = codes "id" });
}

-- The names of the enums.
abbrev pub account_kinds : List Text
account_kinds = codes "Cash" ∷ codes "Security" ∷ codes "External" ∷ []

abbrev pub account_statuses : List Text
account_statuses = codes "Active" ∷ codes "Closed" ∷ []

abbrev pub currencies : List Text
currencies = codes "Unknown" ∷ codes "USD" ∷ codes "EUR" ∷ codes "GBP" ∷ codes "CHF" ∷ []

abbrev pub transaction_statuses : List Text
transaction_statuses = codes "Completed" ∷ codes "Deleted" ∷ []

abbrev pub transaction_entry_types : List Text
transaction_entry_types = codes "General" ∷ codes "Fees" ∷ []

abbrev pub transaction_data_types : List Text
transaction_data_types = codes "Cash" ∷ codes "Stock" ∷ codes "Option" ∷ []

abbrev pub asset_classes : List Text
asset_classes =
    codes "Stock"
    ∷ codes "Etf"
    ∷ codes "Crypto"
    ∷ codes "MutualFund"
    ∷ codes "Future"
    ∷ codes "Unknown"
    ∷ []

abbrev pub option_types : List Text
option_types = codes "Call" ∷ codes "Put" ∷ []

abbrev pub option_buy_sells : List Text
option_buy_sells = codes "Buy" ∷ codes "Sell" ∷ []

abbrev pub option_actions : List Text
option_actions =
    codes "Open" ∷ codes "Close" ∷ codes "RollOpen" ∷ codes "RollClose" ∷ codes "Exercised" ∷ []
