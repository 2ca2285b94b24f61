-- ===== src/Repo/Migration.antt =====
-- Migrations of the database (repo/src/repo/migration/single_migration.cpp and .tpp,
-- multi_migration.cpp and .tpp, migration.cpp, migration_runner.cpp).
pub mod Versions
pub mod Runner
pub mod Neutral
pub mod Runs
use molar_tracker.Base.{
  ℕ, zero, suc, ◌+◌, ◌-◌, ◌≡◌, refl, Option, none, some, List, [], ◌∷◌, ◌++◌, Bool, true, false,
  if◌then◌else◌, Result, err, ok, get_elem?, length, ◌^◌,
}
use molar_tracker.Base.Int.{ℤ, pos, negsuc}
use molar_tracker.Base.Text.{Text, codes, Joining}
use molar_tracker.Common.Version.{SemVer, number_text}
use molar_tracker.Db.Engine.{
  Engine, DbException, Database, Action, continue, ◌>>=◌, ◌>>◌, pure, throw,
}
use molar_tracker.Db.Database.{execute}
use molar_tracker.Orm.Field.{SqlValue, Field, Conversions}
use molar_tracker.Orm.Model.{Model}
use molar_tracker.Orm.Crud.{create_table, add_column, drop_column}

-- `CustomMigration`, `ChangeForeignKeyPragma`, `DropTableMigration`, `CopyTableMigration`,
-- `RenameTableMigration`, `CreateTableMigration`, `AddColumnMigration` and `DropColumnMigration`.
pub data SingleMigration : Type 0 where
  custom : Text → SingleMigration
  change_foreign_key : Bool → SingleMigration
  drop_table : Text → SingleMigration
  copy_table : (source_table destination_table : Text) → SingleMigration
  rename_table : (old_name new_name : Text) → SingleMigration
  add_table : Model → (table_name : Text) → SingleMigration
  new_column : Field → SingleMigration
  old_column : (table_name column_name : Text) → SingleMigration

abbrev pub MultiMigration : Type 0
MultiMigration = List SingleMigration

-- `Migration`
pub record Migration : Type 0 where
  pub from_version : ℕ
  pub migrations : List MultiMigration
  pub version : SemVer

-- `Migrations`
pub record Migrations : Type 0 where
  pub from_version : ℕ
  pub to_version : ℕ
  pub migrations : List Migration

-- `CopyDropRenameMigration`
abbrev pub copy_drop_rename : Model → MultiMigration
copy_drop_rename m =
    change_foreign_key false
    ∷ add_table m (m.table_name ++ codes "_tmp")
    ∷ copy_table m.table_name (m.table_name ++ codes "_tmp")
    ∷ drop_table m.table_name
    ∷ rename_table (m.table_name ++ codes "_tmp") m.table_name
    ∷ change_foreign_key true
    ∷ []

-- `DropAndRecreateTableMigration`
abbrev pub drop_and_recreate : Model → MultiMigration
drop_and_recreate m =
    change_foreign_key false
    ∷ drop_table m.table_name
    ∷ add_table m m.table_name
    ∷ change_foreign_key true
    ∷ []

-- `CreateTableMigration<Model>()`
abbrev pub create_table_of : Model → SingleMigration
create_table_of m = add_table m m.table_name

abbrev pub change_foreign_key_text : Bool → Text
change_foreign_key_text enable =
    codes "PRAGMA foreign_keys = " ++ (if enable then codes "ON" else codes "OFF")

module _ {S : Type 0} (engine : Engine S SqlValue) (mstd : Joining)
    (conversions : Conversions) where
  -- `applyMigration` of a single migration; what `addColumn` and `dropColumn` report is not used.
  unfoldable pub apply_single : SingleMigration → Action S (Unit {0})
  apply_single (custom sql) = execute engine sql
  apply_single (change_foreign_key enable) = execute engine (change_foreign_key_text enable)
  apply_single (drop_table table_name) = execute engine (codes "DROP TABLE " ++ table_name)
  apply_single (copy_table source_table destination_table) =
      execute engine
        (codes "INSERT INTO " ++ destination_table ++ codes " SELECT * FROM " ++ source_table)
  apply_single (rename_table old_name new_name) =
      execute engine (codes "ALTER TABLE " ++ old_name ++ codes " RENAME TO " ++ new_name)
  apply_single (add_table m table_name) = create_table engine mstd m table_name
  apply_single (new_column f) = add_column engine conversions f >>= λ r. pure tt
  apply_single (old_column table_name column_name) =
      drop_column engine conversions table_name column_name >>= λ r. pure tt

  -- `MultiMigration::applyMigration`
  unfoldable pub apply_multi : MultiMigration → Action S (Unit {0})
  apply_multi [] = pure tt
  apply_multi (m ∷ ms) = apply_single m >> apply_multi ms

  abbrev pub apply_all : List MultiMigration → Action S (Unit {0})
  apply_all [] = pure tt
  apply_all (m ∷ ms) = apply_multi m >> apply_all ms

  -- `Migration::migrate`
  unfoldable pub migrate_one : Migration → Action S (Unit {0})
  migrate_one m = apply_all m.migrations

  abbrev pub migrate_at : Option Migration → Action S (Unit {0}) → Action S (Unit {0})
  migrate_at none rest = pure tt
  migrate_at (some m) rest = migrate_one m >> rest

  -- The loop of `Migrations::migrate` for `n` versions from an index on. An index behind the last
  -- migration is undefined in the code, which asserts that there are as many as the last version.
  unfoldable pub migrate_from : (n i : ℕ) → List Migration → Action S (Unit {0})
  migrate_from zero i ms = pure tt
  migrate_from (suc n) i ms = migrate_at (get_elem? ms i) (migrate_from n (suc i) ms)

  -- `Migrations::migrate`
  unfoldable pub migrate_versions : Migrations → Action S (Unit {0})
  migrate_versions ms = migrate_from (ms.to_version - ms.from_version) ms.from_version ms.migrations

-- The cast of the number that the database has to a `std::size_t`.
abbrev pub as_size : ℤ → ℕ
as_size (pos n) = n
as_size (negsuc n) = 2 ^ 64 - suc n

abbrev pub as_exception :
    {S A : Type 0}
    → DbException
    → (Result DbException A × Database S)
    → (Result DbException A × Database S)
as_exception e (err x, d) = (err e, d)
as_exception e (ok a, d) = (ok a, d)
