-- ===== src/Repo/Migration/Neutral.antt =====
-- Migrations that stay within the transaction that they run in
-- (repo/src/repo/migration/single_migration.cpp, migration.cpp).
use molar_tracker.Base.{
  if◌then◌else◌, List, [], ◌∷◌, ◌++◌, Bool, true, false, Result, err, ok, not, subst, sym,
}
use molar_tracker.Base.Int.{ltb_ℤ, pos}
use molar_tracker.Base.Text.{Text, codes, Joining}
use molar_tracker.Db.Engine.{
  Engine, DbException, Action, Steps, done, row_available, failed, ◌>>=◌, ◌>>◌, pure,
}
use molar_tracker.Db.Database.{prepare, run_statement, execute_to_completion}
use molar_tracker.Db.Transaction.Recovery.{
  Recovery, Stays, Stays->>=, Stays-pure, Stays-throw, Stays-execute, IsOf, Stays-run_statement,
  Stays-with, Stays-prepare, IsOf-prepare,
}
use molar_tracker.Orm.Field.{SqlValue, Conversions, Field}
use molar_tracker.Orm.Texts.{
  create_table_text, column_exists_text, add_column_text, drop_column_text,
}
use molar_tracker.Orm.Crud.{
  create_table, add_column, drop_column, column_exists, run_bound, first_count, CrudError,
}
use molar_tracker.Orm.Crud.Within.{Stays-bound, Stays-execute_to_completion}
use molar_tracker.Repo.Migration.{
  SingleMigration, custom, change_foreign_key, drop_table, copy_table, rename_table, add_table,
  new_column, old_column, MultiMigration, Migration, apply_single, apply_multi, apply_all,
  migrate_one, change_foreign_key_text,
}

abbrev altered : Result CrudError (Unit {0})
altered = ok tt

module _ {S C : Type 0} {engine : Engine S SqlValue} (recovery : Recovery engine C) (mstd : Joining)
    (conversions : Conversions) where
  -- The statements of a migration control no transaction.
  abbrev pub IsNeutral : SingleMigration → Type 0
  IsNeutral (custom sql) = recovery.Neutral sql
  IsNeutral (change_foreign_key enable) = recovery.Neutral (change_foreign_key_text enable)
  IsNeutral (drop_table t) = recovery.Neutral (codes "DROP TABLE " ++ t)
  IsNeutral (copy_table t u) =
      recovery.Neutral (codes "INSERT INTO " ++ u ++ codes " SELECT * FROM " ++ t)
  IsNeutral (rename_table t u) =
      recovery.Neutral (codes "ALTER TABLE " ++ t ++ codes " RENAME TO " ++ u)
  IsNeutral (add_table m t) = recovery.Neutral (create_table_text mstd m t)
  IsNeutral (new_column f) =
      recovery.Neutral (column_exists_text f.column.name f.column.table_name)
      × recovery.Neutral (add_column_text f)
  IsNeutral (old_column t c) =
      recovery.Neutral (column_exists_text c t) × recovery.Neutral (drop_column_text t c)

  Stays-first_count :
      (steps : Steps SqlValue) → Stays recovery (first_count engine conversions steps)
  Stays-first_count done = Stays-throw recovery Bool DbException.crud_exception
  Stays-first_count (row_available [] rest) = Stays-pure recovery {A = Bool} false
  Stays-first_count (row_available (v ∷ vs) rest) =
      Stays-pure recovery {A = Bool} (ltb_ℤ (pos 0) (conversions.column_int64 v))
  Stays-first_count (failed code) = Stays-throw recovery Bool DbException.sqlite_error

  Stays-column_exists :
      (c t : Text)
      → recovery.Neutral (column_exists_text c t)
      → Stays recovery (column_exists engine conversions c t)
  unfolding column_exists run_bound
  Stays-column_exists c t n =
      Stays->>= recovery (run_bound engine (column_exists_text c t) [])
        (first_count engine conversions)
        (Stays-bound recovery (column_exists_text c t) [] (run_statement engine) n
          (Stays-run_statement recovery))
        Stays-first_count

  -- A statement that is prepared and executed without values.
  Stays-executed :
      (t : Text)
      → recovery.Neutral t
      → Stays recovery
          (prepare engine t >>= λ statement. execute_to_completion engine statement >> pure altered)
  Stays-executed t n =
      Stays-with recovery (IsOf recovery t) (prepare engine t)
        (λ statement. execute_to_completion engine statement >> pure altered)
        (Stays-prepare recovery t) (IsOf-prepare recovery t)
        (λ statement h.
          Stays->>= recovery (execute_to_completion engine statement) (λ _. pure altered)
            (Stays-execute_to_completion recovery statement (subst recovery.Neutral (sym h) n))
            (λ _. Stays-pure recovery {A = Result CrudError Unit} (ok tt)))

  Stays-if :
      {A : Type 0} (b : Bool) (x y : Action S A)
      → Stays recovery x
      → Stays recovery y
      → Stays recovery (if b then x else y)
  Stays-if true x y h k = h
  Stays-if false x y h k = k

  Stays-add_column :
      (f : Field) → IsNeutral (new_column f) → Stays recovery (add_column engine conversions f)
  unfolding add_column
  Stays-add_column f n =
      Stays->>= recovery (column_exists engine conversions f.column.name f.column.table_name) _
        (Stays-column_exists f.column.name f.column.table_name n.0)
        (λ b.
          Stays-if b _ _
            (Stays-pure recovery {A = Result CrudError Unit} (err CrudError.column_already_exists))
            (Stays-executed (add_column_text f) n.1))

  Stays-drop_column :
      (t c : Text)
      → IsNeutral (old_column t c)
      → Stays recovery (drop_column engine conversions t c)
  unfolding drop_column
  Stays-drop_column t c n =
      Stays->>= recovery (column_exists engine conversions c t) _ (Stays-column_exists c t n.0)
        (λ b.
          Stays-if (not b) _ _
            (Stays-pure recovery {A = Result CrudError Unit} (err CrudError.column_does_not_exist))
            (Stays-executed (drop_column_text t c) n.1))

  Stays-apply_single :
      (m : SingleMigration) → IsNeutral m → Stays recovery (apply_single engine mstd conversions m)
  unfolding apply_single create_table
  Stays-apply_single (custom sql) n = Stays-execute recovery sql n
  Stays-apply_single (change_foreign_key enable) n = Stays-execute recovery _ n
  Stays-apply_single (drop_table t) n = Stays-execute recovery _ n
  Stays-apply_single (copy_table t u) n = Stays-execute recovery _ n
  Stays-apply_single (rename_table t u) n = Stays-execute recovery _ n
  Stays-apply_single (add_table m t) n = Stays-execute recovery _ n
  Stays-apply_single (new_column f) n =
      Stays->>= recovery (add_column engine conversions f) (λ _. pure tt) (Stays-add_column f n)
        (λ _. Stays-pure recovery tt)
  Stays-apply_single (old_column t c) n =
      Stays->>= recovery (drop_column engine conversions t c) (λ _. pure tt)
        (Stays-drop_column t c n) (λ _. Stays-pure recovery tt)

  abbrev pub AllNeutral : MultiMigration → Type 0
  AllNeutral [] = Unit
  AllNeutral (m ∷ ms) = IsNeutral m × AllNeutral ms

  abbrev pub EachNeutral : List MultiMigration → Type 0
  EachNeutral [] = Unit
  EachNeutral (m ∷ ms) = AllNeutral m × EachNeutral ms

  Stays-apply_multi :
      (m : MultiMigration) → AllNeutral m → Stays recovery (apply_multi engine mstd conversions m)
  unfolding apply_multi
  Stays-apply_multi [] n = Stays-pure recovery tt
  Stays-apply_multi (m ∷ ms) n =
      Stays->>= recovery (apply_single engine mstd conversions m)
        (λ _. apply_multi engine mstd conversions ms) (Stays-apply_single m n.0)
        (λ _. Stays-apply_multi ms n.1)

  Stays-apply_all :
      (ms : List MultiMigration)
      → EachNeutral ms
      → Stays recovery (apply_all engine mstd conversions ms)
  Stays-apply_all [] n = Stays-pure recovery tt
  Stays-apply_all (m ∷ ms) n =
      Stays->>= recovery (apply_multi engine mstd conversions m)
        (λ _. apply_all engine mstd conversions ms) (Stays-apply_multi m n.0)
        (λ _. Stays-apply_all ms n.1)

  -- A migration whose statements control no transaction stays within one.
  pub Stays-migrate_one :
      (m : Migration)
      → EachNeutral m.migrations
      → Stays recovery (migrate_one engine mstd conversions m)
  unfolding migrate_one
  Stays-migrate_one m n = Stays-apply_all m.migrations n
