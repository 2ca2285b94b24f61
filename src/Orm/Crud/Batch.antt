-- ===== src/Orm/Crud/Batch.antt =====
-- Inserting all rows or none (orm/include/orm/crud.tpp, `insert` and `batchInsert`).
use molar_tracker.Base.{List, [], ◌∷◌}
use molar_tracker.Base.Text.{Joining}
use molar_tracker.Db.Engine.{Engine}
use molar_tracker.Db.Transaction.Recovery.{Recovery}
use molar_tracker.Orm.Field.{SqlValue}
use molar_tracker.Orm.Model.{Model, Row}
use molar_tracker.Orm.Texts.{insert_text}

module _ {S C : Type 0} {engine : Engine S SqlValue} (recovery : Recovery engine C)
    (mstd : Joining) where
  -- Inserting into these tables controls no transaction.
  abbrev pub AreNeutral : List (Model × Row) → Type 0
  AreNeutral [] = Unit
  AreNeutral ((m, values) ∷ rows) = recovery.Neutral (insert_text mstd m) × AreNeutral rows
