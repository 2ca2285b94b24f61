-- ===== src/Orm/Texts.antt =====
-- The texts of the statements on tables (orm/include/orm/crud.tpp, orm/src/orm/crud.cpp,
-- orm/include/orm/crud/crud_detail.tpp).
use molar_tracker.Base.{
  Option, List, [], ◌∷◌, ◌++◌, false, not, if◌then◌else◌, map, filter_if, length, replicate,
}
use molar_tracker.Base.Text.{Text, codes, Joining}
use molar_tracker.Orm.Field.{Value, Column, Field, is_auto_increment_pk, value_as_string, ddl}
use molar_tracker.Orm.Query.{Query, Joins, query_operations, joins_text}
use molar_tracker.Orm.Model.{Model, Row, get_ddl, get_fk_constraints_of, get_selection}

-- What the columns are called that a row of the model is inserted with, and what an update sets.
abbrev pub insert_columns : Model → List Column
insert_columns m = filter_if (λ c. not (is_auto_increment_pk c)) m.columns

abbrev pub insert_values : Row → List (Option Value)
insert_values row = map (λ f. f.value) (filter_if (λ f. not (is_auto_increment_pk f.column)) row)

abbrev pub update_columns : Model → List Column
update_columns m = filter_if (λ c. not c.is_pk) m.columns

abbrev pub update_values : Row → List (Option Value)
update_values row = map (λ f. f.value) (filter_if (λ f. not f.column.is_pk) row)

module _ (mstd : Joining) where
  abbrev fk_text : List Text → Text
  fk_text [] = []
  fk_text (c ∷ cs) = codes ", " ++ mstd.join (c ∷ cs) (codes ", ")

  -- The loop of `appendUniqueGroup`, from the second column on.
  unfoldable pub more_columns : List Text → Text
  more_columns [] = []
  more_columns (c ∷ cs) = codes ", " ++ c ++ more_columns cs

  abbrev group_columns : List Text → Text
  group_columns [] = []
  group_columns (c ∷ cs) = c ++ more_columns cs

  -- `appendAllUniqueGroups`
  unfoldable pub unique_groups_text : List (List Text) → Text
  unique_groups_text [] = []
  unique_groups_text (g ∷ gs) =
      codes ", UNIQUE (" ++ group_columns g ++ codes ")" ++ unique_groups_text gs

  -- The text of `createTable`.
  unfoldable pub create_table_text : Model → (table_name : Text) → Text
  create_table_text m table_name =
      codes "CREATE TABLE IF NOT EXISTS "
      ++ table_name
      ++ codes " ("
      ++ mstd.join (get_ddl m) (codes ", ")
      ++ fk_text (get_fk_constraints_of m)
      ++ unique_groups_text m.unique_groups
      ++ codes ");"

  abbrev pub insert_list : List Column → Text
  insert_list [] = codes " DEFAULT VALUES"
  insert_list (c ∷ cs) =
      codes "("
      ++ mstd.join (map (λ d. d.name) (c ∷ cs)) (codes ", ")
      ++ codes ") VALUES ("
      ++ mstd.join (replicate (length (c ∷ cs)) (codes "?")) (codes ", ")
      ++ codes ")"

  -- The text of `insert`.
  unfoldable pub insert_text : Model → Text
  insert_text m =
      codes "INSERT INTO "
      ++ m.table_name
      ++ codes " "
      ++ insert_list (insert_columns m)
      ++ codes ";"

  -- The text of `update`.
  unfoldable pub update_text : Model → Query → Text
  update_text m q =
      codes "UPDATE "
      ++ m.table_name
      ++ codes " SET "
      ++ mstd.join (map (λ c. c.name ++ codes "=?") (update_columns m)) (codes ", ")
      ++ query_operations mstd q
      ++ codes ";"

  -- The text of `get` and of `getJoined`, which alone looks at `isDistinct`.
  unfoldable pub get_text : Model → Joins → Query → Text
  get_text m js q =
      get_selection mstd false m []
      ++ codes " "
      ++ (joins_text js ++ codes " ")
      ++ (query_operations mstd q ++ codes ";")

  unfoldable pub get_joined_text : Model → List Model → Joins → Query → Text
  get_joined_text m ms js q =
      get_selection mstd js.is_distinct m ms
      ++ (joins_text js ++ codes " ")
      ++ (query_operations mstd q ++ codes ";")

  -- The text of `deleteByPk`.
  unfoldable pub delete_text : Model → Query → Text
  delete_text m q =
      codes "DELETE FROM " ++ m.table_name ++ codes " " ++ query_operations mstd q ++ codes ";"

-- The text of `updateField`.
unfoldable pub update_field_text : Column → Text
update_field_text c =
    codes "UPDATE " ++ c.table_name ++ codes " SET " ++ (c.name ++ codes "=?") ++ codes ";"

-- The text of `_columnExists`.
unfoldable pub column_exists_text : (column_name table_name : Text) → Text
column_exists_text column_name table_name =
    codes "SELECT COUNT(*) FROM PRAGMA_TABLE_INFO('"
    ++ table_name
    ++ codes "') WHERE name = '"
    ++ column_name
    ++ codes "'"

-- The texts of `addColumn` and `dropColumn`.
unfoldable pub add_column_text : Field → Text
add_column_text f =
    codes "ALTER TABLE "
    ++ f.column.table_name
    ++ codes " ADD COLUMN "
    ++ ddl f.column
    ++ (if f.column.is_not_null then codes " DEFAULT " ++ value_as_string f.value else [])

unfoldable pub drop_column_text : (table_name column_name : Text) → Text
drop_column_text table_name column_name =
    codes "ALTER TABLE " ++ table_name ++ codes " DROP COLUMN " ++ column_name
