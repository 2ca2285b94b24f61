-- ===== src/Db/Engine.antt =====
-- What src/db calls of SQLite, and the state and the exceptions of the code above it
-- (db/include/db/database.hpp, db/include/db/statement.hpp, db/include/db/db_exception.hpp).
use molar_tracker.Base.{Option, none, some, ℕ, List, Bool, Result, err, ok}
use molar_tracker.Base.Int.{ℤ}
use molar_tracker.Base.Text.{Text}

-- What the calls of `sqlite3_step` on one statement give, one after the other.
pub data Steps (V : Type 0) : Type 0 where
  done : Steps V
  row_available : List V → Steps V → Steps V
  failed : ℕ → Steps V

-- `sqlite3_exec`, `sqlite3_prepare_v2`, `sqlite3_bind_*`, `sqlite3_step`,
-- `sqlite3_last_insert_rowid` and `sqlite3_changes64`, over the state `S` of a connection and the
-- values `V` of a column. A statement runs when it is first stepped.
pub record Engine (S V : Type 0) : Type 0 where
  pub exec : Text → S → (Bool × S)
  pub prepares : Text → S → Bool
  pub binds : Text → ℕ → V → S → Bool
  pub run : Text → List (ℕ × V) → S → (Steps V × S)
  pub last_insert_rowid : S → ℤ
  pub changes : S → ℕ

-- The exceptions of src/db, src/orm and src/repo, without their messages.
pub data DbException : Type 0 where
  sqlite_error crud_exception orm_error migration_exception : DbException

-- `Database`; a connection that is not open is `none`.
pub record Database (S : Type 0) : Type 0 where
  pub db : Option S
  pub db_path : Text
  pub executions : List Text
  pub transaction_started : Bool

-- Code that may throw and changes the database; what it changed before it threw stays changed.
abbrev pub Action : Type 0 → Type 0 → Type 0
Action S A = Database S → (Result DbException A × Database S)

abbrev pub continue :
    {S A B : Type 0}
    → (Result DbException A × Database S)
    → (A → Action S B)
    → (Result DbException B × Database S)
continue (err e, d) next = (err e, d)
continue (ok a, d) next = next a d

infixl 5 ◌>>=◌
abbrev pub ◌>>=◌ : {S A B : Type 0} → Action S A → (A → Action S B) → Action S B
call >>= next = λ d. continue (call d) next

infixl 5 ◌>>◌
abbrev pub ◌>>◌ : {S A B : Type 0} → Action S A → Action S B → Action S B
call >> next = call >>= λ _. next

abbrev pub pure : {S A : Type 0} → A → Action S A
pure a = λ d. (ok a, d)

abbrev pub throw : {S A : Type 0} → DbException → Action S A
throw e = λ d. (err e, d)

-- `_db`, for the calls that check with `_ensureOpen` that there is one.
abbrev pub handle_of : {S : Type 0} → Option S → Database S → (Result DbException S × Database S)
handle_of none d = (err DbException.sqlite_error, d)
handle_of (some s) d = (ok s, d)

abbrev pub ensure_open : {S : Type 0} → Action S S
ensure_open d = handle_of d.db d
