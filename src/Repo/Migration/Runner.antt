-- ===== src/Repo/Migration/Runner.antt =====
-- Bringing the database up to date when the program starts
-- (repo/src/repo/migration/migration_runner.cpp).
use molar_tracker.Base.{ℕ, List, ◌++◌, true}
use molar_tracker.Base.Int.{ℤ}
use molar_tracker.Base.Text.{codes, Joining}
use molar_tracker.Common.Version.{number_text}
use molar_tracker.Db.Engine.{Engine, DbException, Action, ◌>>=◌, ◌>>◌}
use molar_tracker.Db.Database.{execute, query_int}
use molar_tracker.Db.Transaction.{scope}
use molar_tracker.Orm.Field.{SqlValue, Conversions}
use molar_tracker.Repo.Migration.{migrate_versions, as_size, as_exception}
use molar_tracker.Repo.Migration.Versions.{make_migrations, db_version}

module _ {S : Type 0} (engine : Engine S SqlValue) (mstd : Joining)
    (conversions : Conversions) where
  -- The transaction of `MigrationRunner::migrate`, from a version on.
  unfoldable pub migrate_within : ℕ → Action S (Unit {0})
  migrate_within version =
      scope engine (λ _. true)
        (migrate_versions engine mstd conversions (make_migrations version db_version)
          >> execute engine (codes "PRAGMA user_version = " ++ number_text db_version))

  -- `MigrationRunner::migrate`, with what `columnInt64` reads of a row.
  unfoldable pub migrate : (List SqlValue → ℤ) → Action S (Unit {0})
  migrate column = query_int engine column (codes "PRAGMA user_version") >>= λ version.
      migrate_within (as_size version)

  -- The constructor, which makes any exception a `MigrationException`.
  unfoldable pub migration_runner : (List SqlValue → ℤ) → Action S (Unit {0})
  migration_runner column d = as_exception DbException.migration_exception (migrate column d)
