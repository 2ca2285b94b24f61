-- ===== src/Repo/Migration/Runs.antt =====
-- Which migrations run, and what is left when they fail
-- (repo/src/repo/migration/migration.cpp, migration_runner.cpp).
use molar_tracker.Base.{
  ℕ, zero, suc, ◌-◌, ◌≤◌, ◌≡◌, refl, some, List, [], ◌∷◌, ◌++◌, true, false, get_elem?, arith,
  subst, sym, length, drop, ap, ◌∙◌,
}
use molar_tracker.Base.Text.{codes, Joining}
use molar_tracker.Common.Version.{number_text}
use molar_tracker.Db.Engine.{Engine, Database, Action, ◌>>◌, pure}
use molar_tracker.Db.Database.{execute}
use molar_tracker.Db.Transaction.{scope}
use molar_tracker.Db.Transaction.Recovery.{Recovery, Stays, Stays->>=, Stays-pure, Stays-execute}
use molar_tracker.Db.Transaction.Atomic.{AllOrNothing, scope-AllOrNothing}
use molar_tracker.Orm.Field.{SqlValue, Conversions}
use molar_tracker.Repo.Migration.{
  Migration, migrate_one, migrate_from, migrate_versions, migrate_at,
}
use molar_tracker.Repo.Migration.Runner.{migrate_within}
use molar_tracker.Repo.Migration.Neutral.{EachNeutral, Stays-migrate_one}
use molar_tracker.Repo.Migration.Versions.{make_migrations, db_version}

drop_all : {A : Type 0} (i : ℕ) (ms : List A) → length ms ≤ i → drop i ms ≡ []
drop_all zero [] h = refl
drop_all zero (m ∷ ms) h = absurd (omega (arith, h))
drop_all (suc i) [] h = refl
drop_all (suc i) (m ∷ ms) h = drop_all i ms (omega (arith, h))

one_more :
    {A : Type 0} (i : ℕ) (ms : List A)
    → suc i ≤ length ms
    → (m : A) × (get_elem? ms i ≡ some m) × (drop i ms ≡ m ∷ drop (suc i) ms)
one_more i [] h = absurd (omega (arith, h))
one_more zero (m ∷ ms) h = (m, refl, refl)
one_more (suc i) (m ∷ ms) h = one_more i ms (omega (arith, h))

module _ {S : Type 0} (engine : Engine S SqlValue) (mstd : Joining)
    (conversions : Conversions) where
  -- Migrations one after the other.
  abbrev pub migrate_each : List Migration → Action S (Unit {0})
  migrate_each [] = pure tt
  migrate_each (m ∷ ms) = migrate_one engine mstd conversions m >> migrate_each ms

  migrate_from-drop :
      (n i : ℕ) (ms : List Migration)
      → n ≡ length ms - i
      → migrate_from engine mstd conversions n i ms ≡ migrate_each (drop i ms)
  unfolding migrate_from
  migrate_from-drop zero i ms h = ap migrate_each (sym (drop_all i ms (omega (arith, h))))
  migrate_from-drop (suc n) i ms h =
      let next = one_more i ms (omega (arith, h)) in
      ap
        (λ m.
          migrate_at engine mstd conversions m (migrate_from engine mstd conversions n (suc i) ms))
        next.1
      ∙ ap (λ rest. migrate_one engine mstd conversions next.0 >> rest)
          (migrate_from-drop n (suc i) ms (omega (arith, h)))
      ∙ ap migrate_each (sym next.2)

  -- Bringing a database of any version up to date runs, in one transaction, the migrations of the
  -- versions behind it, each once and in their order, and then writes the number of the last version;
  -- a database of a later version gets no migration, and its number is set back.
  pub migrate_within-drop :
      (version : ℕ)
      → migrate_within engine mstd conversions version
        ≡ scope engine
            (λ _. true)
            (migrate_each (drop version (make_migrations version db_version).migrations)
              >> execute engine (codes "PRAGMA user_version = " ++ number_text db_version))
  unfolding migrate_within migrate_versions
  migrate_within-drop version =
      ap
        (λ work.
          scope engine (λ _. true)
            (work >> execute engine (codes "PRAGMA user_version = " ++ number_text db_version)))
        (migrate_from-drop (db_version - version) version
          (make_migrations version db_version).migrations refl)

module _ {S C : Type 0} {engine : Engine S SqlValue} (recovery : Recovery engine C) (mstd : Joining)
    (conversions : Conversions) where
  abbrev pub MigrationsNeutral : List Migration → Type 0
  MigrationsNeutral [] = Unit
  MigrationsNeutral (m ∷ ms) =
      EachNeutral recovery mstd conversions m.migrations × MigrationsNeutral ms

  Stays-migrate_each :
      (ms : List Migration)
      → MigrationsNeutral ms
      → Stays recovery (migrate_each engine mstd conversions ms)
  Stays-migrate_each [] n = Stays-pure recovery tt
  Stays-migrate_each (m ∷ ms) n =
      Stays->>= recovery (migrate_one engine mstd conversions m)
        (λ _. migrate_each engine mstd conversions ms)
        (Stays-migrate_one recovery mstd conversions m n.0) (λ _. Stays-migrate_each ms n.1)

  -- If the statements of the migrations behind a version control no transaction, then bringing an open
  -- database of that version and without a transaction up to date either returns, or it throws and
  -- leaves the content from before, and it ends without a transaction, unless SQLite has ended a
  -- transaction by itself or a rollback has failed.
  pub migrate_within-AllOrNothing :
      (version : ℕ) (s : S) (d : Database S)
      → d.db ≡ some s
      → d.transaction_started ≡ false
      → MigrationsNeutral (drop version (make_migrations version db_version).migrations)
      → recovery.Neutral (codes "PRAGMA user_version = " ++ number_text db_version)
      → AllOrNothing recovery
          (λ _. true)
          (recovery.content s)
          (migrate_within engine mstd conversions version d)
  migrate_within-AllOrNothing version s d h k n v =
      let ms = drop version (make_migrations version db_version).migrations in
      subst (λ work. AllOrNothing recovery (λ _. true) (recovery.content s) (work d))
        (sym (migrate_within-drop engine mstd conversions version))
        (scope-AllOrNothing recovery (λ _. true)
          (migrate_each engine mstd conversions ms
            >> execute engine (codes "PRAGMA user_version = " ++ number_text db_version))
          s d h k
          (Stays->>= recovery (migrate_each engine mstd conversions ms)
            (λ _. execute engine (codes "PRAGMA user_version = " ++ number_text db_version))
            (Stays-migrate_each ms n) (λ _. Stays-execute recovery _ v)))
