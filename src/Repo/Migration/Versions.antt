-- ===== src/Repo/Migration/Versions.antt =====
-- The versions of the database (repo/src/repo/migration/migration.cpp).
use molar_tracker.Base.{ℕ, ◌≡◌, refl, some, List, [], ◌∷◌, ◌++◌, length, map}
use molar_tracker.Base.Text.{Text, codes}
use molar_tracker.Common.Id.{invalid_id}
use molar_tracker.Common.Version.{SemVer, sem_ver}
use molar_tracker.Orm.Field.{Column, Field, string_value, enum_value, strong_id_value, enum_kind}
use molar_tracker.SqlModels.Columns.{plain, not_null, currencies}
use molar_tracker.SqlModels.Masters.{
  account_model, account_table, profile_model, instrument_model, instrument_table, stock_model,
  position_model, option_model, stock_short_name_column, stock_currency_column,
  stock_long_name_column, stock_asset_class_column, stock_sector_column, stock_industry_column,
  stock_exchange_column,
}
use molar_tracker.SqlModels.Movements.{
  transaction_model, transaction_table, transaction_entry_model, trade_leg_model,
  transaction_option_model, watchlist_model, watchlist_instrument_model,
  trade_leg_position_id_column, transaction_entry_type_column,
}
use molar_tracker.Repo.Migration.{
  SingleMigration, custom, new_column, old_column, MultiMigration, Migration, copy_drop_rename,
  drop_and_recreate, create_table_of, Migrations,
}

-- One migration of a version, as `addMigration` of a single one makes it.
abbrev pub single : SingleMigration → MultiMigration
single m = m ∷ []

abbrev pub migration : ℕ → SemVer → List MultiMigration → Migration
migration from_version version migrations = record {
  from_version = from_version;
  migrations = migrations;
  version = version;
}

-- A column of a table by its place, with a default value.
abbrev pub default_text : Column → Text → Field
default_text c t = record { column = c; value = some (string_value t) }

abbrev pub default_name : Column → Text → Field
default_name c t = record { column = c; value = some (enum_value t) }

-- `_migrateV1`
abbrev pub migrate_v1 : SemVer → Migration
migrate_v1 version =
    migration 0 version
      (single (create_table_of profile_model) ∷ single (create_table_of account_model) ∷ [])

-- The names of accounts that clash get their identifier.
abbrev distinct_names_text : Text
distinct_names_text =
    codes "\n                UPDATE "
    ++ account_table
    ++ codes "\n                SET name = name || ' (' || CAST(id AS TEXT) || ')'"
    ++ codes "\n                WHERE id NOT IN ("
    ++ codes "\n                    SELECT MIN(id) FROM "
    ++ account_table
    ++ codes " GROUP BY name, kind"
    ++ codes "\n                );\n            "

-- `_migrateV2`
abbrev pub migrate_v2 : SemVer → Migration
migrate_v2 version =
    migration 1 version (single (custom distinct_names_text) ∷ copy_drop_rename account_model ∷ [])

-- `_migrateV3`
abbrev pub migrate_v3 : SemVer → Migration
migrate_v3 version = migration 2 version (
    single (create_table_of instrument_model)
    ∷ single (create_table_of transaction_model)
    ∷ single (create_table_of transaction_entry_model)
    ∷ [])

-- `_migrateV4`
abbrev pub migrate_v4 : SemVer → Migration
migrate_v4 version = migration 3 version (copy_drop_rename account_model ∷ [])

-- `_migrateV5`
abbrev pub migrate_v5 : SemVer → Migration
migrate_v5 version = migration 4 version (
    single (
      new_column (
        default_name (not_null (plain instrument_table (codes "currency") (enum_kind currencies)))
          (codes "USD")))
    ∷ [])

-- `_migrateV6`
abbrev pub migrate_v6 : SemVer → Migration
migrate_v6 version = migration 5 version (
    drop_and_recreate transaction_entry_model
    ∷ drop_and_recreate instrument_model
    ∷ drop_and_recreate transaction_model
    ∷ single (create_table_of trade_leg_model)
    ∷ [])

-- `_migrateV7`
abbrev pub migrate_v7 : SemVer → Migration
migrate_v7 version = migration 6 version (single (create_table_of stock_model) ∷ [])

-- `_migrateV8`
abbrev pub migrate_v8 : SemVer → Migration
migrate_v8 version = migration 7 version (
    single (new_column (default_name stock_currency_column (codes "USD")))
    ∷ single (old_column instrument_table (codes "currency"))
    ∷ [])

-- `_migrateV9`
abbrev pub migrate_v9 : SemVer → Migration
migrate_v9 version = migration 8 version (
    single (new_column (default_text stock_short_name_column []))
    ∷ single (new_column (default_text stock_long_name_column []))
    ∷ single (new_column (default_name stock_asset_class_column (codes "Unknown")))
    ∷ single (new_column (default_text stock_sector_column []))
    ∷ single (new_column (default_text stock_industry_column []))
    ∷ single (new_column (default_text stock_exchange_column []))
    ∷ [])

-- `_migrateV10`
abbrev pub migrate_v10 : SemVer → Migration
migrate_v10 version = migration 9 version (
    single (create_table_of position_model)
    ∷ single (
        new_column (record {
          column = trade_leg_position_id_column;
          value = some (strong_id_value invalid_id);
        }))
    ∷ [])

-- `_migrateV11`
abbrev pub migrate_v11 : SemVer → Migration
migrate_v11 version =
    migration 10 version
      (single (new_column (default_name transaction_entry_type_column (codes "General"))) ∷ [])

-- The transactions of the type that is now called Stock.
abbrev renamed_type_text : Text
renamed_type_text =
    codes "\n                UPDATE "
    ++ transaction_table
    ++ codes "\n                SET type = 'Stock' WHERE type = 'Trade'\n            "

-- `_migrateV12`
abbrev pub migrate_v12 : SemVer → Migration
migrate_v12 version = migration 11 version (single (custom renamed_type_text) ∷ [])

-- `_migrateV13`
abbrev pub migrate_v13 : SemVer → Migration
migrate_v13 version = migration 12 version (single (create_table_of option_model) ∷ [])

-- `_migrateV14`
abbrev pub migrate_v14 : SemVer → Migration
migrate_v14 version = migration 13 version (single (create_table_of transaction_option_model) ∷ [])

-- `_migrateV15`
abbrev pub migrate_v15 : SemVer → Migration
migrate_v15 version = migration 14 version (
    single (create_table_of watchlist_model)
    ∷ single (create_table_of watchlist_instrument_model)
    ∷ [])

-- `_migrate_0_0_3`
abbrev pub migrate_0_0_3 : List Migration
migrate_0_0_3 =
    migrate_v1 (sem_ver 0 0 3)
    ∷ migrate_v2 (sem_ver 0 0 3)
    ∷ migrate_v3 (sem_ver 0 0 3)
    ∷ migrate_v4 (sem_ver 0 0 3)
    ∷ migrate_v5 (sem_ver 0 0 3)
    ∷ []

-- `_migrate_0_1_0`
abbrev pub migrate_0_1_0 : List Migration
migrate_0_1_0 =
    migrate_v6 (sem_ver 0 1 0)
    ∷ migrate_v7 (sem_ver 0 1 0)
    ∷ migrate_v8 (sem_ver 0 1 0)
    ∷ migrate_v9 (sem_ver 0 1 0)
    ∷ migrate_v10 (sem_ver 0 1 0)
    ∷ []

-- `_migrate_0_2_3`
abbrev pub migrate_0_2_3 : List Migration
migrate_0_2_3 =
    migrate_v11 (sem_ver 0 2 3)
    ∷ migrate_v12 (sem_ver 0 2 3)
    ∷ migrate_v13 (sem_ver 0 2 3)
    ∷ migrate_v14 (sem_ver 0 2 3)
    ∷ migrate_v15 (sem_ver 0 2 3)
    ∷ []

-- The constructor of `Migrations`.
abbrev pub make_migrations : (from_version to_version : ℕ) → Migrations
make_migrations from_version to_version = record {
  from_version = from_version;
  to_version = to_version;
  migrations = migrate_0_0_3 ++ migrate_0_1_0 ++ migrate_0_2_3;
}

-- `DB_VERSION`
abbrev pub db_version : ℕ
db_version = 15

-- The assertion of the constructor holds.
all_versions : length (make_migrations 0 db_version).migrations ≡ db_version
all_versions = refl

-- Each migration starts from the version at whose index it stands.
in_order :
    map (λ m. m.from_version) (make_migrations 0 db_version).migrations
    ≡ 0 ∷ 1 ∷ 2 ∷ 3 ∷ 4 ∷ 5 ∷ 6 ∷ 7 ∷ 8 ∷ 9 ∷ 10 ∷ 11 ∷ 12 ∷ 13 ∷ 14 ∷ []
in_order = refl
