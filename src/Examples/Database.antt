-- ===== src/Examples/Database.antt =====
-- Transactions, statements on tables and migrations at concrete inputs.
use molar_tracker.Base.{◌≡◌, refl, none, [], ◌∷◌, ok, map, length, drop, true, false, ◌++◌, ◌+◌}
use molar_tracker.Base.Text.{codes}
use molar_tracker.Db.Transaction.{scope}
use molar_tracker.Db.Database.{execute}
use molar_tracker.Db.Engine.{◌>>◌, Database}
use molar_tracker.Common.Version.{number_text}
use molar_tracker.Db.Transaction.Recovery.{Stays-execute}
use molar_tracker.Db.Transaction.Atomic.{AllOrNothing, scope-AllOrNothing}
use molar_tracker.Orm.Field.{bound_value, get_full_column_name}
use molar_tracker.Orm.Where.{get_db_operations, clause_operations, where_operator_str}
use molar_tracker.Orm.Where.Placeholders.{placeholders, numbered, values_of}
use molar_tracker.Orm.Query.{
  Query, empty_query, with_where, order_by, query_operations, bind_query, get_where_db_operations,
}
use molar_tracker.Orm.Query.Laws.{bind_query-query_operations}
use molar_tracker.Orm.Model.{get_pk_where, load_tuple, add_pk_where}
use molar_tracker.Orm.Model.RoundTrip.{bound_rows, load_tuple-bound_rows}
use molar_tracker.Filter.ExprNode.{make_and}
use molar_tracker.Orm.Texts.{insert_text, insert_values, update_text, create_table_text}
use molar_tracker.Orm.Crud.{insert_within, run_insert, run_update, update}
use molar_tracker.Orm.Crud.Bindings.{updated_values}
use molar_tracker.Orm.Crud.Accepted.{insert_within-run_insert, update-run_update}
use molar_tracker.SqlModels.Masters.{profile_model, position_closed_at_column, is_open}
use molar_tracker.Repo.Migration.Versions.{make_migrations, db_version}
use molar_tracker.Repo.Migration.Runner.{migrate_within}
use molar_tracker.Repo.Migration.Runs.{
  migrate_each, migrate_within-drop, migrate_within-AllOrNothing,
}
use molar_tracker.Examples.Sql.{
  counter_engine, counter_recovery, joining, conversions, profile_row, idle, Counter,
}

scope-AllOrNothing_example :
    AllOrNothing counter_recovery
      (λ _. false)
      1
      (scope counter_engine
        (λ _. false)
        (execute counter_engine (codes "DROP TABLE stock"))
        (idle 1))
unfolding counter_recovery
scope-AllOrNothing_example =
    scope-AllOrNothing counter_recovery (λ _. false)
      (execute counter_engine (codes "DROP TABLE stock")) (1, none) (idle 1) refl refl
      (Stays-execute counter_recovery (codes "DROP TABLE stock") refl)

abbrev started : Database Counter
started = record (idle 1) { transaction_started = true }

insert_within-run_insert_example :
    (placeholders (insert_text joining profile_model)
      ≡ length (map bound_value (insert_values profile_row)))
    × (insert_within counter_engine joining profile_model profile_row (idle 0)
        ≡ run_insert counter_engine
            (record {
              sql = insert_text joining profile_model;
              bound = numbered 1 (map bound_value (insert_values profile_row));
            })
            (idle 0))
unfolding insert_text
insert_within-run_insert_example =
    insert_within-run_insert counter_engine joining profile_model profile_row (idle 0) (0, none)
      (λ _. refl, (λ _. refl, tt)) refl refl ((refl, refl), ((refl, refl), ((refl, refl), tt))) refl
      refl

update-run_update_example :
    (placeholders
        (update_text joining profile_model (with_where (get_pk_where profile_row) empty_query))
      ≡ length (updated_values profile_row))
    × (update counter_engine joining profile_model profile_row (idle 0)
        ≡ run_update counter_engine
            (record {
              sql =
                  update_text joining profile_model
                    (with_where (get_pk_where profile_row) empty_query);
              bound = numbered 1 (updated_values profile_row);
            })
            (idle 0))
unfolding get_pk_where add_pk_where make_and update_text query_operations get_where_db_operations
    get_db_operations with_where clause_operations get_full_column_name where_operator_str
update-run_update_example =
    update-run_update counter_engine joining profile_model profile_row (idle 0) (0, none)
      (λ _. refl, (λ _. refl, (λ _. refl, tt))) refl refl
      ((refl, refl), ((refl, refl), ((refl, refl), tt))) refl refl refl

abbrev open_positions : Query
open_positions = order_by position_closed_at_column true (with_where is_open empty_query)

bind_query-query_operations_example :
    (placeholders (query_operations joining open_positions)
      ≡ length (values_of open_positions.where_expr))
    × (bind_query open_positions ≡ (
      numbered 1 (values_of open_positions.where_expr),
      1 + length (values_of open_positions.where_expr),
    ))
unfolding with_where make_and
bind_query-query_operations_example =
    bind_query-query_operations joining open_positions (refl, refl) (refl, tt)

-- No space stands before the order.
order_after_null :
    query_operations joining open_positions
    ≡ codes "WHERE position.closed_at IS NULLORDER BY closed_at ASC"
unfolding query_operations get_where_db_operations with_where make_and get_db_operations
    clause_operations get_full_column_name
order_after_null = refl

load_tuple-bound_rows_example :
    load_tuple conversions
      (profile_model ∷ profile_model ∷ [])
      0
      (bound_rows (profile_row ∷ profile_row ∷ []))
    ≡ ok (profile_row ∷ profile_row ∷ [])
load_tuple-bound_rows_example =
    load_tuple-bound_rows conversions (profile_model ∷ profile_model ∷ [])
      (profile_row ∷ profile_row ∷ [])
      (
        record { columns = refl; fits = (tt, (tt, (refl, tt))) },
        (record { columns = refl; fits = (tt, (tt, (refl, tt))) }, tt),
      )

migrate_within-drop_example :
    migrate_within counter_engine joining conversions 14
    ≡ scope counter_engine
        (λ _. true)
        (migrate_each counter_engine joining conversions
            (drop 14 (make_migrations 14 db_version).migrations)
          >> execute counter_engine (codes "PRAGMA user_version = " ++ number_text db_version))
migrate_within-drop_example = migrate_within-drop counter_engine joining conversions 14

migrate_within-AllOrNothing_example :
    AllOrNothing counter_recovery
      (λ _. true)
      0
      (migrate_within counter_engine joining conversions 14 (idle 0))
unfolding counter_recovery create_table_text
migrate_within-AllOrNothing_example =
    migrate_within-AllOrNothing counter_recovery joining conversions 14 (0, none) (idle 0) refl refl
      (((refl, tt), ((refl, tt), tt)), tt) refl
