-- ===== src/Db/Transaction/Recovery.antt =====
-- What SQLite documents of transactions, and code that leaves a transaction open
-- (db/src/db/database.cpp, db/src/db/transaction.cpp).
use molar_tracker.Base.{
  ◌≡◌, refl, Option, none, some, List, Bool, true, false, if◌then◌else◌, Result, err, ok, ℕ, ◌⊎◌,
  inl, inr,
}
use molar_tracker.Base.Text.{Text, codes}
use molar_tracker.Db.Engine.{
  Engine, DbException, Database, Action, continue, ◌>>=◌, pure, throw, handle_of, Steps,
}
use molar_tracker.Db.Database.{
  execute, after_exec, after_run, prepare, bind_value, run_statement, Statement,
}

-- A connection within a transaction goes back to what was there when the transaction began. A
-- text that does not control transactions is `Neutral`; a commit that fails leaves the transaction.
-- After some errors (a full disk, an input or output error, no memory, a busy database, an interrupt)
-- SQLite ends the transaction by itself, and a rollback may fail: the connection has then been
-- `Interrupted`, which stays so.
pub record Recovery {S V : Type 0} (engine : Engine S V) (C : Type 0) : Type 1 where
  pub content : S → C
  pub Within : C → S → Type 0
  pub Interrupted : S → Type 0
  pub Neutral : Text → Type 0
  pub begun :
      (s : S)
      → (engine.exec (codes "BEGIN IMMEDIATE;") s).0 ≡ true
      → Within (content s) (engine.exec (codes "BEGIN IMMEDIATE;") s).1
        ⊎ Interrupted (engine.exec (codes "BEGIN IMMEDIATE;") s).1
  pub not_begun :
      (s : S)
      → (engine.exec (codes "BEGIN IMMEDIATE;") s).0 ≡ false
      → content (engine.exec (codes "BEGIN IMMEDIATE;") s).1 ≡ content s
  pub exec_interrupted : (t : Text) (s : S) → Interrupted s → Interrupted (engine.exec t s).1
  pub run_interrupted :
      (t : Text) (bound : List (ℕ × V)) (s : S)
      → Interrupted s
      → Interrupted (engine.run t bound s).1
  pub exec_within :
      (t : Text) (c : C) (s : S)
      → Neutral t
      → Within c s
      → Within c (engine.exec t s).1 ⊎ Interrupted (engine.exec t s).1
  pub run_within :
      (t : Text) (bound : List (ℕ × V)) (c : C) (s : S)
      → Neutral t
      → Within c s
      → Within c (engine.run t bound s).1 ⊎ Interrupted (engine.run t bound s).1
  pub not_committed :
      (c : C) (s : S)
      → (engine.exec (codes "COMMIT;") s).0 ≡ false
      → Within c s
      → Within c (engine.exec (codes "COMMIT;") s).1
        ⊎ Interrupted (engine.exec (codes "COMMIT;") s).1
  pub rolled_back :
      (c : C) (s : S)
      → Within c s
      → (((engine.exec (codes "ROLLBACK;") s).0 ≡ true)
          × (content (engine.exec (codes "ROLLBACK;") s).1 ≡ c))
        ⊎ Interrupted (engine.exec (codes "ROLLBACK;") s).1

module _ {S V C : Type 0} {engine : Engine S V} (recovery : Recovery engine C) where
  -- A connection within a transaction, unless it has been interrupted.
  abbrev pub Held : C → S → Type 0
  Held c s = recovery.Within c s ⊎ recovery.Interrupted s

  exec-Held :
      (t : Text) (c : C) (s : S) → recovery.Neutral t → Held c s → Held c (engine.exec t s).1
  exec-Held t c s n (inl h) = recovery.exec_within t c s n h
  exec-Held t c s n (inr h) = inr (recovery.exec_interrupted t s h)

  run-Held :
      (t : Text) (bound : List (ℕ × V)) (c : C) (s : S)
      → recovery.Neutral t
      → Held c s
      → Held c (engine.run t bound s).1
  run-Held t bound c s n (inl h) = recovery.run_within t bound c s n h
  run-Held t bound c s n (inr h) = inr (recovery.run_interrupted t bound s h)

  pub not_committed-Held :
      (c : C) (s : S)
      → (engine.exec (codes "COMMIT;") s).0 ≡ false
      → Held c s
      → Held c (engine.exec (codes "COMMIT;") s).1
  not_committed-Held c s q (inl h) = recovery.not_committed c s q h
  not_committed-Held c s q (inr h) = inr (recovery.exec_interrupted (codes "COMMIT;") s h)

  pub rolled_back-Held :
      (c : C) (s : S)
      → Held c s
      → (((engine.exec (codes "ROLLBACK;") s).0 ≡ true)
          × (recovery.content (engine.exec (codes "ROLLBACK;") s).1 ≡ c))
        ⊎ recovery.Interrupted (engine.exec (codes "ROLLBACK;") s).1
  rolled_back-Held c s (inl h) = recovery.rolled_back c s h
  rolled_back-Held c s (inr h) = inr (recovery.exec_interrupted (codes "ROLLBACK;") s h)

  abbrev pub HandleWithin : C → Option S → Type 0
  HandleWithin c none = ⊥
  HandleWithin c (some s) = Held c s

  -- The database is within a transaction that began with a content, as far as the program knows.
  abbrev pub IsWithin : C → Database S → Type 0
  IsWithin c d = HandleWithin c d.db × (d.transaction_started ≡ true)

  abbrev pub HasContent : C → Option S → Type 0
  HasContent c none = ⊥
  HasContent c (some s) = recovery.content s ≡ c

  -- SQLite has ended a transaction by itself, or a rollback has failed.
  abbrev pub HandleInterrupted : Option S → Type 0
  HandleInterrupted none = ⊥
  HandleInterrupted (some s) = recovery.Interrupted s

  -- Code that stays within a transaction, also where it throws, unless SQLite ends it.
  abbrev pub Stays : {A : Type 0} → Action S A → Type 0
  Stays work = (c : C) (d : Database S) → IsWithin c d → IsWithin c (work d).1

  Stays-continue :
      {A B : Type 0} (c : C) (r : Result DbException A × Database S) (next : A → Action S B)
      → IsWithin c r.1
      → ((a : A) → Stays (next a))
      → IsWithin c (continue r next).1
  Stays-continue c (err e, d) next h k = h
  Stays-continue c (ok a, d) next h k = k a c d h

  pub Stays->>= :
      {A B : Type 0} (work : Action S A) (next : A → Action S B)
      → Stays work
      → ((a : A) → Stays (next a))
      → Stays (work >>= next)
  Stays->>= work next h k = λ c d w. Stays-continue c (work d) next (h c d w) k

  -- The value that code returns has a property, if it returns one.
  abbrev pub Holds : {A : Type 0} → (A → Type 0) → Result DbException A → Type 0
  Holds P (err e) = Unit
  Holds P (ok a) = P a

  Stays-continue_with :
      {A B : Type 0} (P : A → Type 0) (c : C) (r : Result DbException A × Database S)
      (next : A → Action S B)
      → IsWithin c r.1
      → Holds P r.0
      → ((a : A) → P a → Stays (next a))
      → IsWithin c (continue r next).1
  Stays-continue_with P c (err e, d) next h p k = h
  Stays-continue_with P c (ok a, d) next h p k = k a p c d h

  pub Stays-with :
      {A B : Type 0} (P : A → Type 0) (work : Action S A) (next : A → Action S B)
      → Stays work
      → ((d : Database S) → Holds P (work d).0)
      → ((a : A) → P a → Stays (next a))
      → Stays (work >>= next)
  Stays-with P work next h p k = λ c d w. Stays-continue_with P c (work d) next (h c d w) (p d) k

  pub Stays-pure : {A : Type 0} (a : A) → Stays (pure a)
  Stays-pure a = λ c d w. w

  pub Stays-throw : (A : Type 0) (e : DbException) → Stays {A = A} (throw e)
  Stays-throw A e = λ c d w. w

  pub Stays-handle :
      {A : Type 0} (c : C) (o : Option S) (d : Database S) (next : S → Action S A)
      → HandleWithin c o
      → (IsWithin c d)
      → ((s : S) → Held c s → IsWithin c (next s d).1)
      → IsWithin c (continue (handle_of o d) next).1
  Stays-handle c none d next h w k = w
  Stays-handle c (some s) d next h w k = k s h

  after_exec-IsWithin :
      (c : C) (t : Text) (p : Bool × S) (d : Database S)
      → Held c p.1
      → d.transaction_started ≡ true
      → IsWithin c (after_exec engine t p d).1
  after_exec-IsWithin c t (false, s) d h k = (h, k)
  after_exec-IsWithin c t (true, s) d h k = (h, k)

  pub Stays-execute : (t : Text) → recovery.Neutral t → Stays (execute engine t)
  unfolding execute
  Stays-execute t n = λ c d w.
      Stays-handle c d.db d (λ s. after_exec engine t (engine.exec t s)) w.0 w
        (λ s h. after_exec-IsWithin c t (engine.exec t s) d (exec-Held t c s n h) w.1)

  Stays-test :
      {A : Type 0} (c : C) (d : Database S) (b : Bool) (a : A) (e : DbException)
      → IsWithin c d
      → IsWithin c ((if b then pure {S = S} a else throw e) d).1
  Stays-test c d true a e w = w
  Stays-test c d false a e w = w

  pub Stays-prepare : (t : Text) → Stays (prepare engine t)
  unfolding prepare
  Stays-prepare t =
      λ c d w. Stays-handle c d.db d _ w.0 w (λ s h. Stays-test c d (engine.prepares t s) _ _ w)

  pub Stays-bind_value :
      (i : ℕ) (v : V) (statement : Statement V) → Stays (bind_value engine i v statement)
  unfolding bind_value
  Stays-bind_value i v statement = λ c d w.
      Stays-handle c d.db d _ w.0 w (λ s h. Stays-test c d (engine.binds statement.sql i v s) _ _ w)

  after_run-IsWithin :
      (c : C) (p : Steps V × S) (d : Database S)
      → Held c p.1
      → d.transaction_started ≡ true
      → IsWithin c (after_run engine p d).1
  after_run-IsWithin c (steps, s) d h k = (h, k)

  pub Stays-run_statement :
      (statement : Statement V)
      → recovery.Neutral statement.sql
      → Stays (run_statement engine statement)
  unfolding run_statement
  Stays-run_statement statement n = λ c d w.
      Stays-handle c d.db d (λ s. after_run engine (engine.run statement.sql statement.bound s)) w.0
        w
        (λ s h.
          after_run-IsWithin c (engine.run statement.sql statement.bound s) d
            (run-Held statement.sql statement.bound c s n h) w.1)

  -- A statement of a text.
  abbrev pub IsOf : Text → Statement V → Type 0
  IsOf t statement = statement.sql ≡ t

  Holds-test :
      {A : Type 0} (P : A → Type 0) (b : Bool) (a : A) (e : DbException) (d : Database S)
      → P a
      → Holds P ((if b then pure {S = S} a else throw e) d).0
  Holds-test P true a e d h = h
  Holds-test P false a e d h = tt

  Holds-handle :
      {A : Type 0} (P : A → Type 0) (o : Option S) (d : Database S) (next : S → Action S A)
      → ((s : S) → Holds P (next s d).0)
      → Holds P (continue (handle_of o d) next).0
  Holds-handle P none d next k = tt
  Holds-handle P (some s) d next k = k s

  pub IsOf-prepare : (t : Text) (d : Database S) → Holds (IsOf t) (prepare engine t d).0
  unfolding prepare
  IsOf-prepare t d =
      Holds-handle (IsOf t) d.db d _ (λ s. Holds-test (IsOf t) (engine.prepares t s) _ _ d refl)

  pub IsOf-bind_value :
      (t : Text) (i : ℕ) (v : V) (statement : Statement V) (d : Database S)
      → IsOf t statement
      → Holds (IsOf t) (bind_value engine i v statement d).0
  unfolding bind_value
  IsOf-bind_value t i v statement d h =
      Holds-handle (IsOf t) d.db d _
        (λ s. Holds-test (IsOf t) (engine.binds statement.sql i v s) _ _ d h)
