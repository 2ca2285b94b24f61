-- ===== src/Db/Database.antt =====
-- The connection and its prepared statements (db/src/db/database.cpp, db/src/db/statement.cpp).
use molar_tracker.Base.{
  ℕ, ◌-◌, Option, none, some, List, [], ◌∷◌, ◌++◌, Bool, true, false, ltb, if◌then◌else◌, err, ok,
  length, drop,
}
use molar_tracker.Base.Int.{ℤ, eqb_ℤ, pos}
use molar_tracker.Base.Text.{Text, codes}
use molar_tracker.Db.Engine.{
  Steps, done, row_available, failed, Engine, DbException, Action, ◌>>=◌, ◌>>◌, pure, throw,
  ensure_open,
}

abbrev pub max_executions_history : ℕ
max_executions_history = 1000

-- `_executions.emplace_back`, and the oldest ones go.
abbrev pub remember : Text → List Text → List Text
remember sql executions =
    let all_of_them = executions ++ sql ∷ [] in
    if ltb max_executions_history (length all_of_them)
    then drop (length all_of_them - max_executions_history) all_of_them
    else all_of_them

-- `Statement`, as `Database::prepare` makes it: its text, and what is bound.
pub record Statement (V : Type 0) : Type 0 where
  pub sql : Text
  pub bound : List (ℕ × V)

module _ {S V : Type 0} (engine : Engine S V) where
  abbrev pub after_exec : Text → (Bool × S) → Action S (Unit {0})
  after_exec sql (false, s) d = (err DbException.sqlite_error, record d { db = some s })
  after_exec sql (true, s) d =
      (ok tt, record d { db = some s; executions = remember sql d.executions })

  unfoldable pub execute : Text → Action S (Unit {0})
  execute sql = ensure_open >>= λ s. after_exec sql (engine.exec sql s)

  abbrev pub set_transaction_started : Bool → Action S (Unit {0})
  set_transaction_started b d = (ok tt, record d { transaction_started = b })

  abbrev pub begin_text : Bool → Text
  begin_text true = codes "BEGIN IMMEDIATE;"
  begin_text false = codes "BEGIN;"

  unfoldable pub begin : Bool → Action S (Unit {0})
  begin immediate = execute (begin_text immediate) >> set_transaction_started true

  unfoldable pub commit : Action S (Unit {0})
  commit = execute (codes "COMMIT;") >> set_transaction_started false

  unfoldable pub rollback : Action S (Unit {0})
  rollback = execute (codes "ROLLBACK;") >> set_transaction_started false

  unfoldable pub prepare : Text → Action S (Statement V)
  prepare sql = ensure_open >>= λ s.
      if engine.prepares sql s
      then pure (record { sql = sql; bound = [] })
      else throw DbException.sqlite_error

  -- `getLastInsertRowid`
  unfoldable pub get_last_insert_rowid : Action S (Option ℤ)
  get_last_insert_rowid = ensure_open >>= λ s. pure (
      if eqb_ℤ (engine.last_insert_rowid s) (pos 0)
      then none
      else some (engine.last_insert_rowid s))

  unfoldable pub get_number_of_last_changes : Action S ℕ
  get_number_of_last_changes = ensure_open >>= λ s. pure (engine.changes s)

  -- `enableForeignKeys`
  unfoldable pub enable_foreign_keys : Bool → Action S (Unit {0})
  enable_foreign_keys enabled =
      execute
        (if enabled then codes "PRAGMA foreign_keys = ON;" else codes "PRAGMA foreign_keys = OFF;")

  -- `bindNull`, `bindInt64` and `bindText`
  unfoldable pub bind_value : ℕ → V → Statement V → Action S (Statement V)
  bind_value index v statement = ensure_open >>= λ s.
      if engine.binds statement.sql index v s
      then pure (record statement { bound = statement.bound ++ (index, v) ∷ [] })
      else throw DbException.sqlite_error

  abbrev pub after_run : (Steps V × S) → Action S (Steps V)
  after_run (steps, s) d = (ok steps, record d { db = some s })

  -- What the steps of a statement give from its first one on.
  unfoldable pub run_statement : Statement V → Action S (Steps V)
  run_statement statement =
      ensure_open >>= λ s. after_run (engine.run statement.sql statement.bound s)

  -- `executeToCompletion`
  abbrev pub expect_done : Steps V → Action S (Unit {0})
  expect_done done = pure tt
  expect_done (row_available v rest) = throw DbException.sqlite_error
  expect_done (failed code) = throw DbException.sqlite_error

  unfoldable pub execute_to_completion : Statement V → Action S (Unit {0})
  execute_to_completion statement = run_statement statement >>= expect_done

  -- `while (statement.step() == StepResult::RowAvailable)`, with the rows that were read.
  unfoldable pub all_rows : Steps V → Action S (List (List V))
  all_rows done = pure []
  all_rows (row_available v rest) = all_rows rest >>= λ vs. pure (v ∷ vs)
  all_rows (failed code) = throw DbException.sqlite_error

  -- `queryInt`, with what `columnInt64(0)` reads of a row.
  abbrev pub first_row : (List V → ℤ) → Steps V → Action S ℤ
  first_row column done = throw DbException.sqlite_error
  first_row column (row_available v rest) = pure (column v)
  first_row column (failed code) = throw DbException.sqlite_error

  unfoldable pub query_int : (List V → ℤ) → Text → Action S ℤ
  query_int column sql = prepare sql >>= λ statement. run_statement statement >>= first_row column
