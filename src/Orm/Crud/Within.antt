-- ===== src/Orm/Crud/Within.antt =====
-- Operations that stay within a transaction (orm/include/orm/crud.tpp).
use molar_tracker.Base.{ℕ, List, [], ◌∷◌, Result, err, ok, subst, sym}
use molar_tracker.Base.Int.{ℤ}
use molar_tracker.Base.Text.{Text}
use molar_tracker.Db.Engine.{
  Engine, DbException, sqlite_error, crud_exception, orm_error, migration_exception, Database,
  Action, Steps, done, row_available, failed, continue, ◌>>=◌, pure,
}
use molar_tracker.Db.Database.{
  Statement, execute_to_completion, run_statement, expect_done, get_last_insert_rowid, bind_value,
  prepare,
}
use molar_tracker.Db.Transaction.Recovery.{
  Recovery, IsWithin, Stays, Stays->>=, Stays-pure, Stays-throw, Stays-prepare, Stays-bind_value,
  Stays-run_statement, Stays-handle, Stays-with, IsOf, Holds, IsOf-prepare, IsOf-bind_value,
}
use molar_tracker.Orm.Field.{SqlValue}
use molar_tracker.Orm.Crud.{
  CrudError, bind_all, catching, caught_as, after_insert, add_id, id_or_error, go_on, run_insert,
}

module _ {S C : Type 0} {engine : Engine S SqlValue} (recovery : Recovery engine C) where
  Stays-expect_done : (steps : Steps SqlValue) → Stays recovery (expect_done engine steps)
  Stays-expect_done done = Stays-pure recovery tt
  Stays-expect_done (row_available v rest) = Stays-throw recovery Unit DbException.sqlite_error
  Stays-expect_done (failed code) = Stays-throw recovery Unit DbException.sqlite_error

  pub Stays-execute_to_completion :
      (statement : Statement SqlValue)
      → recovery.Neutral statement.sql
      → Stays recovery (execute_to_completion engine statement)
  unfolding execute_to_completion
  Stays-execute_to_completion statement n =
      Stays->>= recovery (run_statement engine statement) (expect_done engine)
        (Stays-run_statement recovery statement n) Stays-expect_done

  Stays-get_last_insert_rowid : Stays recovery (get_last_insert_rowid engine)
  unfolding get_last_insert_rowid
  Stays-get_last_insert_rowid = λ c d w. Stays-handle recovery c d.db d _ w.0 w (λ s h. w)

  Stays-bind_all :
      (calls : List (ℕ × SqlValue)) (statement : Statement SqlValue)
      → Stays recovery (bind_all engine calls statement)
  unfolding bind_all
  Stays-bind_all [] statement = Stays-pure recovery statement
  Stays-bind_all ((i, v) ∷ calls) statement =
      Stays->>= recovery (bind_value engine i v statement) (bind_all engine calls)
        (Stays-bind_value recovery i v statement) (Stays-bind_all calls)

  IsOf-continue :
      (t : Text) (r : Result DbException (Statement SqlValue) × Database S)
      (calls : List (ℕ × SqlValue))
      → Holds recovery (IsOf recovery t) r.0
      → ((statement : Statement SqlValue) (d : Database S)
          → IsOf recovery t statement
          → Holds recovery (IsOf recovery t) (bind_all engine calls statement d).0)
      → Holds recovery (IsOf recovery t) (continue r (bind_all engine calls)).0
  IsOf-continue t (err e, d) calls h k = tt
  IsOf-continue t (ok statement, d) calls h k = k statement d h

  IsOf-bind_all :
      (t : Text) (calls : List (ℕ × SqlValue)) (statement : Statement SqlValue) (d : Database S)
      → IsOf recovery t statement
      → Holds recovery (IsOf recovery t) (bind_all engine calls statement d).0
  unfolding bind_all
  IsOf-bind_all t [] statement d h = h
  IsOf-bind_all t ((i, v) ∷ calls) statement d h =
      IsOf-continue t (bind_value engine i v statement d) calls
        (IsOf-bind_value recovery t i v statement d h) (IsOf-bind_all t calls)

  -- A prepared and bound statement that runs without controlling the transaction.
  pub Stays-bound :
      {A : Type 0} (t : Text) (calls : List (ℕ × SqlValue)) (run : Statement SqlValue → Action S A)
      → recovery.Neutral t
      → ((statement : Statement SqlValue)
          → recovery.Neutral statement.sql
          → Stays recovery (run statement))
      → Stays recovery (prepare engine t >>= λ statement. bind_all engine calls statement >>= run)
  Stays-bound t calls run n k =
      Stays-with recovery (IsOf recovery t) (prepare engine t)
        (λ statement. bind_all engine calls statement >>= run) (Stays-prepare recovery t)
        (IsOf-prepare recovery t)
        (λ statement h.
          Stays-with recovery (IsOf recovery t) (bind_all engine calls statement) run
            (Stays-bind_all calls statement) (λ d. IsOf-bind_all t calls statement d h)
            (λ statement₁ h₁. k statement₁ (subst recovery.Neutral (sym h₁) n)))

  caught-IsWithin :
      {A : Type 0} (c : C) (e : CrudError) (r : Result DbException A × Database S)
      → IsWithin recovery c r.1
      → IsWithin recovery c (caught_as engine e r).1
  caught-IsWithin c e (err sqlite_error, d) h = h
  caught-IsWithin c e (err crud_exception, d) h = h
  caught-IsWithin c e (err orm_error, d) h = h
  caught-IsWithin c e (err migration_exception, d) h = h
  caught-IsWithin c e (ok a, d) h = h

  Stays-after_insert : (r : Result CrudError Unit) → Stays recovery (after_insert engine r)
  Stays-after_insert (err e) = Stays-pure recovery {A = Result CrudError ℤ} (err e)
  Stays-after_insert (ok u) =
      Stays->>= recovery (get_last_insert_rowid engine) _ Stays-get_last_insert_rowid
        (λ id. Stays-pure recovery {A = Result CrudError ℤ} (id_or_error id))

  pub Stays-go_on :
      (rest : Action S (Result CrudError (List ℤ))) (r : Result CrudError ℤ)
      → Stays recovery rest
      → Stays recovery (go_on engine rest r)
  Stays-go_on rest (err e) h = Stays-pure recovery {A = Result CrudError (List ℤ)} (err e)
  Stays-go_on rest (ok i) h =
      Stays->>= recovery rest (λ is. pure (add_id i is)) h
        (λ is. Stays-pure recovery {A = Result CrudError (List ℤ)} (add_id i is))

  pub Stays-run_insert :
      (statement : Statement SqlValue)
      → recovery.Neutral statement.sql
      → Stays recovery (run_insert engine statement)
  Stays-run_insert statement n =
      Stays->>= recovery
        (catching engine CrudError.insert_failed (execute_to_completion engine statement))
        (after_insert engine)
        (λ c d w.
          caught-IsWithin c CrudError.insert_failed (execute_to_completion engine statement d)
            (Stays-execute_to_completion statement n c d w))
        Stays-after_insert
