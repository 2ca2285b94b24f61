-- ===== src/Db/Transaction/Atomic.antt =====
-- What a scope with a transaction leaves behind (db/src/db/transaction.cpp).
use molar_tracker.Base.{
  ◌≡◌, refl, ap, ◌∙◌, Option, none, some, Bool, true, false, Result, err, ok, ◌⊎◌, inl, inr,
  Bool-cases,
}
use molar_tracker.Base.Text.{codes}
use molar_tracker.Db.Engine.{
  Engine, DbException, Database, Action, continue, ◌>>=◌, pure, handle_of,
}
use molar_tracker.Db.Database.{
  begin, commit, rollback, set_transaction_started, execute, after_exec,
}
use molar_tracker.Db.Transaction.{
  Transaction, open_transaction, commit_transaction, rollback_transaction, close_transaction, scope,
  after_body, begin_unless, commit_if,
}
use molar_tracker.Db.Transaction.Recovery.{
  Recovery, HasContent, HandleInterrupted, HandleWithin, Held, IsWithin, Stays, not_committed-Held,
  rolled_back-Held,
}

abbrev inactive : Transaction
inactive = record { is_active = false }

module _ {S V : Type 0} (engine : Engine S V) where
  after_body-inactive :
      {A : Type 0} (r : Result DbException A × Database S) (succeeded : A → Bool)
      → after_body engine (continue r (commit_if engine succeeded inactive)) inactive ≡ r
  unfolding commit_transaction close_transaction rollback_transaction
  after_body-inactive (err e, d) succeeded = refl
  after_body-inactive (ok a, d) succeeded = elim (Bool-cases (succeeded a)) [
    | inl k ↦ rw k refl
    | inr k ↦ rw k refl
  ]

  -- Inside a transaction that is already there, a scope neither begins nor ends one: it only works.
  pub scope-nested :
      {A : Type 0} (succeeded : A → Bool) (work : Action S A) (d : Database S)
      → d.transaction_started ≡ true
      → scope engine succeeded work d ≡ work d
  unfolding scope open_transaction begin_unless
  scope-nested succeeded work d h =
      ap
        (λ b.
          continue (begin_unless engine b true d)
            (λ t d₁. after_body engine ((work >>= commit_if engine succeeded t) d₁) t))
        h
      ∙ after_body-inactive (work d) succeeded

abbrev active : Transaction
active = record { is_active = true }

module _ {S V C : Type 0} {engine : Engine S V} (recovery : Recovery engine C) where
  -- A transaction is over, and the database has a content, unless SQLite has ended a transaction by
  -- itself or a rollback has failed.
  abbrev Over : C → Database S → Type 0
  Over c d =
      (HasContent recovery c d.db × (d.transaction_started ≡ false))
      ⊎ HandleInterrupted recovery d.db

  after_rollback :
      (c : C) (p : Bool × S) (d : Database S)
      → ((p.0 ≡ true) × (recovery.content p.1 ≡ c)) ⊎ recovery.Interrupted p.1
      → Over c
          (continue
            (continue
              (after_exec engine (codes "ROLLBACK;") p d)
              (λ _. set_transaction_started engine false))
            (λ _. pure inactive)).1
  after_rollback c (false, s) d (inl (h, k)) = absurd (cc)
  after_rollback c (true, s) d (inl (h, k)) = inl (k, refl)
  after_rollback c (false, s) d (inr i) = inr i
  after_rollback c (true, s) d (inr i) = inr i

  close_handle :
      (c : C) (o : Option S) (d : Database S)
      → HandleWithin recovery c o
      → Over c
          (continue
            (continue
              (continue
                (handle_of o d)
                (λ s. after_exec engine (codes "ROLLBACK;") (engine.exec (codes "ROLLBACK;") s)))
              (λ _. set_transaction_started engine false))
            (λ _. pure inactive)).1
  close_handle c none d h = absurd h
  close_handle c (some s) d h =
      after_rollback c (engine.exec (codes "ROLLBACK;") s) d (rolled_back-Held recovery c s h)

  close-Over :
      (c : C) (d : Database S) → IsWithin recovery c d → Over c (close_transaction engine active d)
  unfolding close_transaction rollback_transaction rollback execute
  close-Over c d h = close_handle c d.db d h.0

  -- A scope ended without a transaction, and if it did not return a value that counts as a success,
  -- the database has the content from before, unless SQLite has ended a transaction by itself
  -- or a rollback has failed.
  abbrev pub AllOrNothing :
      {A : Type 0} → (A → Bool) → C → (Result DbException A × Database S) → Type 0
  AllOrNothing succeeded c (err e, d) = Over c d
  AllOrNothing succeeded c (ok a, d) =
      ((succeeded a ≡ true) × (d.transaction_started ≡ false)) ⊎ Over c d

  after_commit :
      {A : Type 0} (succeeded : A → Bool) (a : A) (c : C) (p : Bool × S) (d : Database S)
      → succeeded a ≡ true
      → d.transaction_started ≡ true
      → (p.0 ≡ false → Held recovery c p.1)
      → AllOrNothing succeeded c (
          after_body engine
            (continue
              (continue
                (continue
                  (after_exec engine (codes "COMMIT;") p d)
                  (λ _. set_transaction_started engine false))
                (λ _. pure inactive))
              (λ t₁. pure (a, t₁)))
            active)
  unfolding close_transaction rollback_transaction
  after_commit succeeded a c (false, s) d h started k = close-Over c _ (k refl, started)
  after_commit succeeded a c (true, s) d h started k = inl (h, refl)

  commit_handle :
      {A : Type 0} (succeeded : A → Bool) (a : A) (c : C) (o : Option S) (d : Database S)
      → succeeded a ≡ true
      → d.transaction_started ≡ true
      → HandleWithin recovery c o
      → AllOrNothing succeeded c (
          after_body engine
            (continue
              (continue
                (continue
                  (continue
                    (handle_of o d)
                    (λ s. after_exec engine (codes "COMMIT;") (engine.exec (codes "COMMIT;") s)))
                  (λ _. set_transaction_started engine false))
                (λ _. pure inactive))
              (λ t₁. pure (a, t₁)))
            active)
  commit_handle succeeded a c none d h started k = absurd k
  commit_handle succeeded a c (some s) d h started k =
      after_commit succeeded a c (engine.exec (codes "COMMIT;") s) d h started
        (λ q. not_committed-Held recovery c s q k)

  after_work :
      {A : Type 0} (succeeded : A → Bool) (c : C) (r : Result DbException A × Database S)
      → IsWithin recovery c r.1
      → AllOrNothing succeeded c
          (after_body engine (continue r (commit_if engine succeeded active)) active)
  unfolding commit_transaction commit execute
  after_work succeeded c (err e, d) h = close-Over c d h
  after_work succeeded c (ok a, d) h = elim (Bool-cases (succeeded a)) [
    | inl k ↦ rw k (commit_handle succeeded a c d.db d k h.1 h.0)
    | inr k ↦ rw k (inr (close-Over c d h))
  ]

  after_begin :
      {A : Type 0} (succeeded : A → Bool) (work : Action S A) (c : C) (p : Bool × S)
      (d : Database S)
      → d.transaction_started ≡ false
      → (p.0 ≡ true → Held recovery c p.1)
      → (p.0 ≡ false → recovery.content p.1 ≡ c)
      → Stays recovery work
      → AllOrNothing succeeded c (
          continue
            (continue
              (continue
                (after_exec engine (codes "BEGIN IMMEDIATE;") p d)
                (λ _. set_transaction_started engine true))
              (λ _. pure active))
            (λ t d₁. after_body engine ((work >>= commit_if engine succeeded t) d₁) t))
  after_begin succeeded work c (false, s) d h k l stays = inl (l refl, h)
  after_begin succeeded work c (true, s) d h k l stays =
      after_work succeeded c (work _) (stays c _ (k refl, refl))

  begin_handle :
      {A : Type 0} (succeeded : A → Bool) (work : Action S A) (o : Option S) (s : S)
      (d : Database S)
      → o ≡ some s
      → d.transaction_started ≡ false
      → Stays recovery work
      → AllOrNothing succeeded (recovery.content s) (
          continue
            (continue
              (continue
                (continue (handle_of o d) (λ s₁.
                  after_exec engine
                    (codes "BEGIN IMMEDIATE;")
                    (engine.exec (codes "BEGIN IMMEDIATE;") s₁)))
                (λ _. set_transaction_started engine true))
              (λ _. pure active))
            (λ t d₁. after_body engine ((work >>= commit_if engine succeeded t) d₁) t))
  begin_handle succeeded work o s d e h stays = rw e (
      after_begin succeeded work (recovery.content s) (engine.exec (codes "BEGIN IMMEDIATE;") s) d h
        (recovery.begun s) (recovery.not_begun s) stays)

  begin_test :
      {A : Type 0} (succeeded : A → Bool) (work : Action S A) (b : Bool) (s : S) (d : Database S)
      → b ≡ false
      → d.db ≡ some s
      → d.transaction_started ≡ false
      → Stays recovery work
      → AllOrNothing succeeded (recovery.content s) (
          continue
            (begin_unless engine b true d)
            (λ t d₁. after_body engine ((work >>= commit_if engine succeeded t) d₁) t))
  unfolding begin_unless begin execute
  begin_test succeeded work b s d h e k stays =
      rw h (begin_handle succeeded work d.db s d e k stays)

  -- If the database has no transaction, a scope whose work stays within one ends without a
  -- transaction, and the work either returned what counts as a success or left no trace: the database
  -- has the content from before, also if beginning, the work or committing threw. This is so unless
  -- SQLite has ended a transaction by itself or a rollback has failed.
  pub scope-AllOrNothing :
      {A : Type 0} (succeeded : A → Bool) (work : Action S A) (s : S) (d : Database S)
      → d.db ≡ some s
      → d.transaction_started ≡ false
      → Stays recovery work
      → AllOrNothing succeeded (recovery.content s) (scope engine succeeded work d)
  unfolding scope open_transaction
  scope-AllOrNothing succeeded work s d e h stays =
      begin_test succeeded work d.transaction_started s d h e h stays
