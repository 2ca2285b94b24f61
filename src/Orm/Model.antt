-- ===== src/Orm/Model.antt =====
-- The fields of models and rows (orm/include/orm/fields.tpp).
pub mod RoundTrip
use molar_tracker.Base.{
  ℕ, zero, suc, ◌+◌, ◌≡◌, refl, Option, none, some, List, [], ◌∷◌, ◌++◌, Bool, true, false,
  if◌then◌else◌, map, filter_if, length, get_elem?, Result, err, ok, ◌>>=◌,
}
use molar_tracker.Base.Text.{Text, codes, Joining}
use molar_tracker.Db.Engine.{DbException}
use molar_tracker.Filter.ExprNode.{make_and}
use molar_tracker.Orm.Field.{
  Value, SqlValue, null, Column, Field, Conversions, is_auto_increment_pk, is_fk, ddl,
  get_fk_constraints, get_full_column_name, read_from,
}
use molar_tracker.Orm.Where.{WhereExpr, Operator, make_empty_where, make_where}

-- What a model type says of its table; a unique group is the names of its columns.
pub record Model : Type 0 where
  pub table_name : Text
  pub columns : List Column
  pub unique_groups : List (List Text)

-- An object of a model: `forEachField` goes over its fields, `forEachColumn` over the columns.
abbrev pub Row : Type 0
Row = List Field

-- `getDDl`
abbrev pub get_ddl : Model → List Text
get_ddl m = map ddl m.columns

-- `getFKConstraints`
abbrev pub get_fk_constraints_of : Model → List Text
get_fk_constraints_of m = map get_fk_constraints (filter_if is_fk m.columns)

-- `getFullColumnNames`
abbrev pub get_full_column_names : Model → List Text
get_full_column_names m = map get_full_column_name m.columns

-- `getColumnNames` with a delimiter.
abbrev pub get_column_names : Joining → Text → Model → Text
get_column_names mstd delimiter m = mstd.join (map (λ c. c.name) m.columns) delimiter

-- The loop of `getPkWhere`.
unfoldable pub add_pk_where : Row → WhereExpr → WhereExpr
add_pk_where [] where_expr = where_expr
add_pk_where (f ∷ fs) where_expr = add_pk_where fs (
    if f.column.is_pk
    then make_and where_expr (make_where f.column f.value Operator.equal)
    else where_expr)

unfoldable pub get_pk_where : Row → WhereExpr
get_pk_where row = add_pk_where row make_empty_where

-- `getNumberOfPkFields`, `getNumberOfAutoIncrementPkFields` and `getNumberOfFields`.
abbrev pub get_number_of_pk_fields : Model → ℕ
get_number_of_pk_fields m = length (filter_if (λ c. c.is_pk) m.columns)

abbrev pub get_number_of_auto_increment_pk_fields : Model → ℕ
get_number_of_auto_increment_pk_fields m = length (filter_if is_auto_increment_pk m.columns)

abbrev pub get_number_of_fields : Model → ℕ
get_number_of_fields m = length m.columns

-- What SQLite has in a column of the current row; there is nothing behind the last one.
abbrev pub column_value : List SqlValue → ℕ → SqlValue
column_value values col = elim (get_elem? values col) [ none ↦ null | some v ↦ v ]

module _ (conversions : Conversions) where
  -- The loop of `loadModelFromStatement`, from a column of the statement on.
  unfoldable pub load_fields : List Column → ℕ → List SqlValue → Result DbException Row
  load_fields [] col values = ok []
  load_fields (c ∷ cs) col values = read_from conversions c (column_value values col) >>= λ v.
      load_fields cs (suc col) values >>= λ fs. ok (record { column = c; value = v } ∷ fs)

  -- `loadModelFromStatement`
  unfoldable pub load_model : Model → ℕ → List SqlValue → Result DbException Row
  load_model m offset values = load_fields m.columns offset values

  -- `loadTupleFromStatement`, from an offset on.
  unfoldable pub load_tuple : List Model → ℕ → List SqlValue → Result DbException (List Row)
  load_tuple [] offset values = ok []
  load_tuple (m ∷ ms) offset values = load_model m offset values >>= λ row.
      load_tuple ms (offset + get_number_of_fields m) values >>= λ rows. ok (row ∷ rows)

-- `getSelection`; the first model is the one selected from.
unfoldable pub get_selection : Joining → Bool → Model → List Model → Text
get_selection mstd is_distinct m ms =
    codes "SELECT "
    ++ (if is_distinct then codes "DISTINCT " else [])
    ++ mstd.join (map (λ n. n.table_name ++ codes ".*") (m ∷ ms)) (codes ", ")
    ++ codes " FROM "
    ++ m.table_name
