-- ===== src/Db/Transaction.antt =====
-- Transactions that end with their scope (db/src/db/transaction.cpp).
pub mod Recovery
pub mod Atomic
use molar_tracker.Base.{
  ◌≡◌, refl, Option, none, some, List, Bool, true, false, not, if◌then◌else◌, Result, err, ok,
  arith,
}
use molar_tracker.Base.Text.{Text, codes}
use molar_tracker.Db.Engine.{
  Engine, DbException, Database, Action, continue, ◌>>=◌, ◌>>◌, pure, ensure_open,
}
use molar_tracker.Db.Database.{begin, commit, rollback, set_transaction_started}

-- `Transaction`; it is active if it has begun the transaction of the database itself.
pub record Transaction : Type 0 where
  pub is_active : Bool

module _ {S V : Type 0} (engine : Engine S V) where
  -- `Transaction(Database&, bool immediate)`, with whether the database has a transaction.
  unfoldable pub begin_unless : Bool → Bool → Action S Transaction
  begin_unless true immediate = pure (record { is_active = false })
  begin_unless false immediate = begin engine immediate >> pure (record { is_active = true })

  unfoldable pub open_transaction : Bool → Action S Transaction
  open_transaction immediate d = begin_unless d.transaction_started immediate d

  -- `Transaction::commit`
  unfoldable pub commit_transaction : Transaction → Action S Transaction
  commit_transaction t =
      if t.is_active then commit engine >> pure (record { is_active = false }) else pure t

  -- `Transaction::rollback`
  unfoldable pub rollback_transaction : Transaction → Action S Transaction
  rollback_transaction t =
      if t.is_active then rollback engine >> pure (record { is_active = false }) else pure t

  -- `~Transaction`; an exception of the rollback is only logged.
  unfoldable pub close_transaction : Transaction → Database S → Database S
  close_transaction t d = (rollback_transaction t d).1

  abbrev pub after_body :
      {A : Type 0}
      → (Result DbException (A × Transaction) × Database S)
      → Transaction
      → (Result DbException A × Database S)
  after_body (err e, d) t = (err e, close_transaction t d)
  after_body (ok (a, t₁), d) t = (ok a, close_transaction t₁ d)

  abbrev pub commit_if : {A : Type 0} → (A → Bool) → Transaction → A → Action S (A × Transaction)
  commit_if succeeded t a =
      if succeeded a then (commit_transaction t >>= λ t₁. pure (a, t₁)) else pure (a, t)

  -- A scope that opens a transaction, works, commits if the work succeeded, and destroys the
  -- transaction where it ends, also by an exception.
  unfoldable pub scope : {A : Type 0} → (A → Bool) → Action S A → Action S A
  scope succeeded work =
      open_transaction true >>= λ t d. after_body ((work >>= commit_if succeeded t) d) t
