-- ===== src/Examples/Backup.antt =====
-- Pruning backups at concrete inputs.
use molar_tracker.Base.{ℕ, ◌≡◌, refl, some, [], ◌∷◌, take, drop, List, map}
use molar_tracker.Base.Int.{pos}
use molar_tracker.Base.Text.{Text, codes}
use molar_tracker.Db.Backup.{
  KeyMap, BackupFile, RetentionPolicy, prune, kept_weekly, week_map, paths_of, add_key, Stamp, kept,
  kept_two, kept_recent, month_map,
}
use molar_tracker.Db.Backup.Retention.{Among, Each, Survivor, prune-survivors}
use molar_tracker.Db.Backup.Weeks.{IsAscending, FileOf, TakenOrLater, kept_weekly-earliest}

abbrev backup : Text → ℕ → ℕ → BackupFile
backup path week month = record {
  path = path;
  stamp = some (record { year = pos 2026; week = week; month = month });
}

-- The newest first.
abbrev backups : List BackupFile
backups =
    backup (codes "d") 2930 5
    ∷ backup (codes "c") 2929 5
    ∷ backup (codes "b") 2928 5
    ∷ backup (codes "a") 2927 5
    ∷ []

abbrev policy : RetentionPolicy
policy = record { recent_count = 1; weekly_count = 1 }

-- Of the weeks behind the most recent file, the earliest is kept for its week.
earliest_week : kept_weekly policy backups ≡ codes "a" ∷ []
unfolding kept_weekly week_map add_key
earliest_week = refl

pruned : map (λ f. f.path) (prune policy backups) ≡ codes "b" ∷ []
unfolding prune kept kept_two kept_recent kept_weekly week_map month_map add_key
pruned = refl

prune-survivors_example :
    ((f : BackupFile)
      → Among (take policy.recent_count backups) f
      → ¬ (Among (prune policy backups) f))
    × ((f : BackupFile) (s : Stamp)
        → Among backups f
        → f.stamp ≡ some s
        → Survivor policy backups s)
prune-survivors_example = prune-survivors policy backups

kept_weekly-earliest_example :
    (chosen : KeyMap) × (kept_weekly policy backups ≡ paths_of chosen)
    × IsAscending chosen
    × Each (FileOf (drop policy.recent_count backups)) chosen
    × ((f : BackupFile) (s : Stamp)
        → Among (drop policy.recent_count backups) f
        → f.stamp ≡ some s
        → TakenOrLater policy.weekly_count (s.year, s.week) chosen)
kept_weekly-earliest_example = kept_weekly-earliest policy backups
