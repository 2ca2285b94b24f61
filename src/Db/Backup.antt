-- ===== src/Db/Backup.antt =====
-- Which backups are kept (db/src/db/backup_manager.cpp).
pub mod Retention
pub mod Weeks
use molar_tracker.Base.{
  ℕ, zero, suc, ◌≡◌, refl, Option, none, some, List, [], ◌∷◌, ◌++◌, Bool, true, false, not, ◌&&◌,
  ◌||◌, if◌then◌else◌, any, filter_if, map, take, drop, ltb,
}
use molar_tracker.Base.Int.{ℤ, ltb_ℤ, eqb_ℤ}
use molar_tracker.Base.Text.{Text, text_eq}

-- What `_prune` asks of a time stamp: `year`, `week` and `month`.
pub record Stamp : Type 0 where
  pub year : ℤ
  pub week : ℕ
  pub month : ℕ

-- A file of the directory of backups, with the time stamp that its name has, if it has one.
pub record BackupFile : Type 0 where
  pub path : Text
  pub stamp : Option Stamp

-- `RetentionPolicy`
pub record RetentionPolicy : Type 0 where
  pub recent_count : ℕ
  pub weekly_count : ℕ

-- `std::map<std::pair<int, unsigned>, std::filesystem::path>`, in the order of its keys.
abbrev pub Key : Type 0
Key = ℤ × ℕ

abbrev pub KeyMap : Type 0
KeyMap = List (Key × Text)

-- `operator<` of the pairs.
abbrev pub key_less : Key → Key → Bool
key_less k j = if ltb_ℤ k.0 j.0 then true else if ltb_ℤ j.0 k.0 then false else ltb k.1 j.1

-- `if (!map.contains(key)) map[key] = path`
unfoldable pub add_key : Key → Text → KeyMap → KeyMap
add_key k p [] = (k, p) ∷ []
add_key k p ((j, q) ∷ m) =
    let rest = add_key k p m in
    if key_less k j then (k, p) ∷ (j, q) ∷ m else if key_less j k then (j, q) ∷ rest else (j, q) ∷ m

abbrev pub contains_path : List Text → Text → Bool
contains_path keep p = any (text_eq p) keep

-- A file in the loop of the second tier, and the loop.
abbrev pub add_week : BackupFile → KeyMap → KeyMap
add_week f m = elim f.stamp [ none ↦ m | some s ↦ add_key (s.year, s.week) f.path m ]

unfoldable pub week_map : List BackupFile → KeyMap → KeyMap
week_map [] m = m
week_map (f ∷ fs) m = week_map fs (add_week f m)

abbrev pub month_entry : Bool → Option Stamp → Text → KeyMap → KeyMap
month_entry kept none p m = m
month_entry true (some s) p m = m
month_entry false (some s) p m = add_key (s.year, s.month) p m

-- A file in the loop of the third tier, which passes over what is kept, and the loop.
abbrev pub add_month : List Text → BackupFile → KeyMap → KeyMap
add_month keep f m = month_entry (contains_path keep f.path) f.stamp f.path m

unfoldable pub month_map : List Text → List BackupFile → KeyMap → KeyMap
month_map keep [] m = m
month_map keep (f ∷ fs) m = month_map keep fs (add_month keep f m)

abbrev pub paths_of : KeyMap → List Text
paths_of m = map (λ e. e.1) m

-- What the first tier keeps, and the first two: the weeks are taken in the order of the map.
unfoldable pub kept_recent : RetentionPolicy → List BackupFile → List Text
kept_recent policy sorted = map (λ f. f.path) (take policy.recent_count sorted)

unfoldable pub kept_weekly : RetentionPolicy → List BackupFile → List Text
kept_weekly policy sorted =
    take policy.weekly_count (paths_of (week_map (drop policy.recent_count sorted) []))

unfoldable pub kept_two : RetentionPolicy → List BackupFile → List Text
kept_two policy sorted = kept_recent policy sorted ++ kept_weekly policy sorted

unfoldable pub kept : RetentionPolicy → List BackupFile → List Text
kept policy sorted =
    kept_two policy sorted
    ++ paths_of (month_map (kept_two policy sorted) (drop policy.recent_count sorted) [])

-- `_prune`: the files that it removes.
unfoldable pub prune : RetentionPolicy → List BackupFile → List BackupFile
prune policy sorted = filter_if (λ f. not (contains_path (kept policy sorted) f.path)) sorted
