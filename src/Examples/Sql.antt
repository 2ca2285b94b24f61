-- ===== src/Examples/Sql.antt =====
-- A database that counts what was changed, for the runs of src/db, src/orm and src/repo.
use molar_tracker.Base.{
  inl, ℕ, suc, ◌≡◌, refl, Option, none, some, List, [], ◌∷◌, ◌++◌, Bool, true, false, ◌&&◌, leb,
  ◌==◌, if◌then◌else◌,
}
use molar_tracker.Base.Int.{ℤ, pos}
use molar_tracker.Base.Text.{Text, codes, text_eq, Joining}
use molar_tracker.Db.Engine.{Engine, Database, Steps, done, failed}
use molar_tracker.Db.Transaction.Recovery.{Recovery}
use molar_tracker.Orm.Field.{
  SqlValue, int64, text, Conversions, Column, Value, strong_id_value, string_value,
}
use molar_tracker.Orm.Where.Placeholders.{placeholders}
use molar_tracker.Orm.Model.{Row}
use molar_tracker.SqlModels.Masters.{profile_model}

-- The number of changes, and the number from before if there is a transaction.
abbrev pub Counter : Type 0
Counter = ℕ × Option ℕ

-- Which texts control transactions.
pub data Control : Type 0 where
  begins commits rolls_back other : Control

abbrev pub control : Text → Control
control t =
    if text_eq t (codes "BEGIN IMMEDIATE;")
    then begins
    else if text_eq t (codes "COMMIT;")
    then commits
    else if text_eq t (codes "ROLLBACK;")
    then rolls_back
    else other

abbrev pub back : Counter → (Bool × Counter)
back (n, none) = (false, (n, none))
back (n, some m) = (true, (m, none))

abbrev pub counter_exec : Control → Counter → (Bool × Counter)
counter_exec begins s = (true, (s.0, some s.0))
counter_exec commits s = (true, (s.0, none))
counter_exec rolls_back s = back s
counter_exec other s = (true, (suc s.0, s.1))

-- A third change is refused.
abbrev pub counter_run : Bool → Counter → (Steps SqlValue × Counter)
counter_run true s = (failed 19, s)
counter_run false s = (done, (suc s.0, s.1))

abbrev pub counter_engine : Engine Counter SqlValue
counter_engine = record {
  exec = λ t s. counter_exec (control t) s;
  prepares = λ t s. true;
  binds = λ sql i v s. leb 1 i && leb i (placeholders sql);
  run = λ t bound s. counter_run (s.0 == 2) s;
  last_insert_rowid = λ s. pos s.0;
  changes = λ s. 1;
}

pub other_within :
    (k : Control) (c : ℕ) (s : Counter) → k ≡ other → s.1 ≡ some c → (counter_exec k s).1.1 ≡ some c
other_within k c s h e = rw h e

pub run_within : (b : Bool) (c : ℕ) (s : Counter) → s.1 ≡ some c → (counter_run b s).1.1 ≡ some c
run_within true c s e = e
run_within false c s e = e

pub goes_back :
    (c n : ℕ) (o : Option ℕ) → o ≡ some c → ((back (n, o)).0 ≡ true) × ((back (n, o)).1.0 ≡ c)
goes_back c n o e = rw e (refl, refl)

-- This database ends no transaction by itself.
unfoldable pub counter_recovery : Recovery counter_engine ℕ
counter_recovery = record {
  content = λ s. s.0;
  Within = λ c s. s.1 ≡ some c;
  Neutral = λ t. control t ≡ other;
  Interrupted = λ s. ⊥;
  begun = λ s h. inl refl;
  not_begun = λ s h. refl;
  exec_interrupted = λ t s i. i;
  run_interrupted = λ t bound s i. i;
  exec_within = λ t c s n h. inl (other_within (control t) c s n h);
  run_within = λ t bound c s n h. inl (run_within (s.0 == 2) c s h);
  not_committed = λ c s e h. absurd (cc);
  rolled_back = λ c s h. inl (goes_back c s.0 s.1 h);
}

abbrev join_texts : List Text → Text → Text
join_texts [] d = []
join_texts (t ∷ []) d = t
join_texts (t ∷ u ∷ ts) d = t ++ d ++ join_texts (u ∷ ts) d

abbrev pub joining : Joining
joining = record {
  join = join_texts;
  join-none = λ d. refl;
  join-one = λ t d. refl;
  join-more = λ t u ts d. refl;
}

abbrev int64_of : SqlValue → ℤ
int64_of (int64 i) = i
int64_of _ = pos 0

abbrev text_of : SqlValue → Text
text_of (text t) = t
text_of _ = []

abbrev pub conversions : Conversions
conversions = record {
  column_int64 = int64_of;
  column_text = text_of;
  column_int64-int64 = λ i. refl;
  column_text-text = λ t. refl;
}

-- Rows of the table of profiles.
abbrev pub with_values : List Column → List (Option Value) → Row
with_values (c ∷ cs) (v ∷ vs) = record { column = c; value = v } ∷ with_values cs vs
with_values _ _ = []

abbrev pub profile_row : Row
profile_row =
    with_values profile_model.columns
      (some (strong_id_value (pos 1)) ∷ some (string_value (codes "Ann")) ∷ none ∷ [])

abbrev pub idle : ℕ → Database Counter
idle n = record { db = some (n, none); db_path = []; executions = []; transaction_started = false }
