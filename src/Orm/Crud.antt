-- ===== src/Orm/Crud.antt =====
-- The operations on tables (orm/include/orm/crud.tpp, orm/src/orm/crud.cpp,
-- orm/include/orm/crud/crud_detail.tpp).
pub mod Bindings
pub mod Accepted
pub mod Within
pub mod Batch
use molar_tracker.Base.{
  ℕ, suc, ◌+◌, ◌≡◌, refl, Option, none, some, List, [], ◌∷◌, ◌++◌, Bool, true, false, not,
  if◌then◌else◌, map, filter_if, length, replicate, ltb, ◌==◌, Result, err, ok,
}
use molar_tracker.Base.Int.{ℤ, pos, ltb_ℤ}
use molar_tracker.Base.Text.{Text, codes, Joining}
use molar_tracker.Db.Engine.{
  Engine, DbException, Database, Action, Steps, done, row_available, failed, continue, ◌>>=◌, ◌>>◌,
  pure, throw,
}
use molar_tracker.Db.Database.{
  Statement, execute, prepare, bind_value, run_statement, execute_to_completion,
  get_last_insert_rowid, get_number_of_last_changes,
}
use molar_tracker.Db.Transaction.{scope}
use molar_tracker.Filter.ExprNode.{is_empty_node, get_size}
use molar_tracker.Orm.Field.{
  Value, SqlValue, Column, Field, Conversions, is_auto_increment_pk, bound_value, value_as_string,
  ddl,
}
use molar_tracker.Orm.Where.{Binding, bind, bind_fields, bind_index}
use molar_tracker.Orm.Query.{
  Query, Joins, empty_query, with_where, query_operations, bind_query, joins_text, no_joins,
}
use molar_tracker.Orm.Texts.{
  create_table_text, insert_text, insert_values, update_text, update_values, update_field_text,
  get_text, get_joined_text, delete_text, column_exists_text, add_column_text, drop_column_text,
}
use molar_tracker.Orm.Model.{
  Model, Row, get_ddl, get_fk_constraints_of, get_pk_where, get_number_of_pk_fields, load_model,
  load_tuple, get_selection,
}

-- `CrudErrorType`
pub data CrudError : Type 0 where
  no_rows_updated no_primary_key multiple_rows_updated insert_failed update_failed : CrudError
  not_found multiple_results column_already_exists column_does_not_exist : CrudError

abbrev pub id_or_error : Option ℤ → Result CrudError ℤ
id_or_error none = err CrudError.insert_failed
id_or_error (some i) = ok i

abbrev pub has_value : {A : Type 0} → Result CrudError A → Bool
has_value (ok a) = true
has_value (err e) = false

abbrev pub add_id : ℤ → Result CrudError (List ℤ) → Result CrudError (List ℤ)
add_id i (err e) = err e
add_id i (ok is) = ok (i ∷ is)

abbrev check_changes : ℕ → Result CrudError (Unit {0})
check_changes changes =
    if changes == 0
    then err CrudError.no_rows_updated
    else if ltb 1 changes
    then err CrudError.multiple_rows_updated
    else ok tt

-- The values that `update` binds, and the condition's behind them.
abbrev pub update_calls : Row → List (ℕ × SqlValue)
update_calls row =
    let set = bind_fields (update_values row) (bind_index 0) in
    set.0 ++ (bind (get_pk_where row) set.1).0

abbrev pub at_most_one : {A : Type 0} → List A → Result DbException (Option A)
at_most_one [] = ok none
at_most_one (a ∷ []) = ok (some a)
at_most_one (a ∷ b ∷ rows) = err DbException.crud_exception

abbrev pub returned : {S A : Type 0} → Result DbException A → Action S A
returned (err e) = throw e
returned (ok a) = pure a

module _ {S : Type 0} (engine : Engine S SqlValue) where
  -- The calls that bind values.
  unfoldable pub bind_all : List (ℕ × SqlValue) → Statement SqlValue → Action S (Statement SqlValue)
  bind_all [] statement = pure statement
  bind_all ((index, v) ∷ calls) statement = bind_value engine index v statement >>= bind_all calls

  -- A statement that is prepared, bound and stepped.
  unfoldable pub run_bound : Text → List (ℕ × SqlValue) → Action S (Steps SqlValue)
  run_bound sql calls =
      prepare engine sql >>= λ statement. bind_all calls statement >>= run_statement engine

  abbrev pub caught_as :
      {A : Type 0}
      → CrudError
      → (Result DbException A × Database S)
      → (Result DbException (Result CrudError A) × Database S)
  caught_as e (err DbException.sqlite_error, d) = (ok (err e), d)
  caught_as e (err x, d) = (err x, d)
  caught_as e (ok a, d) = (ok (ok a), d)

  -- `catch (const db::SqliteError&)`, which returns an error.
  abbrev pub catching : {A : Type 0} → CrudError → Action S A → Action S (Result CrudError A)
  catching e call d = caught_as e (call d)

  abbrev pub after_insert : Result CrudError (Unit {0}) → Action S (Result CrudError ℤ)
  after_insert (err e) = pure (err e)
  after_insert (ok u) = get_last_insert_rowid engine >>= λ id. pure (id_or_error id)

  -- What `insert` does with a statement that is bound.
  abbrev pub run_insert : Statement SqlValue → Action S (Result CrudError ℤ)
  run_insert statement =
      catching CrudError.insert_failed (execute_to_completion engine statement) >>= after_insert

  -- One round of `batchInsert`, which the first error ends.
  abbrev pub go_on :
      Action S (Result CrudError (List ℤ))
      → Result CrudError ℤ
      → Action S (Result CrudError (List ℤ))
  go_on rest (err e) = pure (err e)
  go_on rest (ok i) = rest >>= λ is. pure (add_id i is)

  abbrev after_update : Result CrudError (Unit {0}) → Action S (Result CrudError (Unit {0}))
  after_update (err e) = pure (err e)
  after_update (ok u) = get_number_of_last_changes engine >>= λ n. pure (check_changes n)

  -- What `update` does with a statement that is bound.
  abbrev pub run_update : Statement SqlValue → Action S (Result CrudError (Unit {0}))
  run_update statement =
      catching CrudError.update_failed (execute_to_completion engine statement) >>= after_update

  -- `updateField`
  unfoldable pub update_field : Field → Action S (Result CrudError (Unit {0}))
  update_field f = prepare engine (update_field_text f.column) >>= λ statement.
      bind_value engine (bind_index 0) (bound_value f.value) statement >>= λ statement₁.
      execute_to_completion engine statement₁
      >> (get_number_of_last_changes engine >>= λ n. pure (check_changes n))

  -- `while (statement.step() == RowAvailable)`, with what is loaded of each row.
  unfoldable pub load_all :
      {A : Type 0} → (List SqlValue → Result DbException A) → Steps SqlValue → Action S (List A)
  load_all load done = pure []
  load_all load (row_available values rest) =
      returned (load values) >>= λ a. load_all load rest >>= λ rows. pure (a ∷ rows)
  load_all load (failed code) = throw DbException.sqlite_error

module _ {S : Type 0} (engine : Engine S SqlValue) (mstd : Joining) where
  -- `createTable`
  unfoldable pub create_table : Model → (table_name : Text) → Action S (Unit {0})
  create_table m table_name = execute engine (create_table_text mstd m table_name)

  -- `insert` in a transaction of the caller.
  unfoldable pub insert_within : Model → Row → Action S (Result CrudError ℤ)
  insert_within m row = prepare engine (insert_text mstd m) >>= λ statement.
      bind_all engine (bind_fields (insert_values row) (bind_index 0)).0 statement
      >>= run_insert engine

  unfoldable pub insert : Model → Row → Action S (Result CrudError ℤ)
  insert m row = scope engine has_value (insert_within m row)

  -- The rows of `batchInsert` in their order; the first error skips the rest.
  unfoldable pub insert_rows : List (Model × Row) → Action S (Result CrudError (List ℤ))
  insert_rows [] = pure (ok [])
  insert_rows ((m, row) ∷ rows) = insert_within m row >>= go_on engine (insert_rows rows)

  unfoldable pub batch_insert : List (Model × Row) → Action S (Result CrudError (List ℤ))
  batch_insert rows = scope engine has_value (insert_rows rows)

  unfoldable pub update : Model → Row → Action S (Result CrudError (Unit {0}))
  update m row =
      if is_empty_node (get_pk_where row)
      then pure (err CrudError.no_primary_key)
      else (prepare engine (update_text mstd m (with_where (get_pk_where row) empty_query))
          >>= λ statement. bind_all engine (update_calls row) statement >>= run_update engine)

  -- `deleteByPk`
  unfoldable pub delete_by_pk : Model → Row → Action S (Unit {0})
  delete_by_pk m row =
      if not (get_number_of_pk_fields m == 1)
      then throw DbException.crud_exception
      else if is_empty_node (get_pk_where row)
      then throw DbException.crud_exception
      else if not (get_size (get_pk_where row) == get_number_of_pk_fields m)
      then throw DbException.crud_exception
      else (prepare engine (delete_text mstd m (with_where (get_pk_where row) empty_query))
          >>= λ statement.
              bind_all engine (bind (get_pk_where row) (bind_index 0)).0 statement
              >>= execute_to_completion engine)

module _ {S : Type 0} (engine : Engine S SqlValue) (mstd : Joining)
    (conversions : Conversions) where
  unfoldable pub get : Model → Joins → Query → Action S (List Row)
  get m js q =
      run_bound engine (get_text mstd m js q) (bind_query q).0
      >>= load_all engine (load_model conversions m 0)

  unfoldable pub get_joined : Model → List Model → Joins → Query → Action S (List (List Row))
  get_joined m ms js q =
      run_bound engine (get_joined_text mstd m ms js q) (bind_query q).0
      >>= load_all engine (load_tuple conversions (m ∷ ms) 0)

  -- `getUnique`
  unfoldable pub get_unique : Model → Query → Action S (Option Row)
  get_unique m q = get m no_joins q >>= λ rows. returned (at_most_one rows)

module _ {S : Type 0} (engine : Engine S SqlValue) (conversions : Conversions) where
  abbrev pub first_count : Steps SqlValue → Action S Bool
  first_count done = throw DbException.crud_exception
  first_count (row_available [] rest) = pure false
  first_count (row_available (v ∷ vs) rest) = pure (ltb_ℤ (pos 0) (conversions.column_int64 v))
  first_count (failed code) = throw DbException.sqlite_error

  -- `_columnExists`
  unfoldable pub column_exists : (column_name table_name : Text) → Action S Bool
  column_exists column_name table_name =
      run_bound engine (column_exists_text column_name table_name) [] >>= first_count

  -- `addColumn` and `dropColumn`
  unfoldable pub add_column : Field → Action S (Result CrudError (Unit {0}))
  add_column f = column_exists f.column.name f.column.table_name >>= λ exists.
      if exists
      then pure (err CrudError.column_already_exists)
      else (prepare engine (add_column_text f) >>= λ statement.
          execute_to_completion engine statement >> pure (ok tt))

  unfoldable pub drop_column :
      (table_name column_name : Text) → Action S (Result CrudError (Unit {0}))
  drop_column table_name column_name = column_exists column_name table_name >>= λ exists.
      if not exists
      then pure (err CrudError.column_does_not_exist)
      else (prepare engine (drop_column_text table_name column_name) >>= λ statement.
          execute_to_completion engine statement >> pure (ok tt))
