-- ===== src/Db/Backup/Weeks.antt =====
-- Which weeks the second tier of backups keeps (db/src/db/backup_manager.cpp).
use molar_tracker.Base.{
  ℕ, zero, suc, ◌≡◌, refl, Option, none, some, List, [], ◌∷◌, true, take, drop, ◌⊎◌, inl, inr,
  length, subst, ◌∙◌, Bool-cases, arith, ap,
}
use molar_tracker.Base.Text.{Text}
use molar_tracker.Db.Backup.{
  Stamp, BackupFile, Key, KeyMap, RetentionPolicy, key_less, add_key, add_week, week_map,
  kept_weekly, paths_of,
}
use molar_tracker.Db.Backup.Retention.{
  Among, HasKey, HasKey-add_key, HasKey-grows, Each, Each-add_key,
}

key_less_trans : (i j k : Key) → key_less i j ≡ true → key_less j k ≡ true → key_less i k ≡ true
key_less_trans i j k h e = ground arith

abbrev pub Behind : Key → KeyMap → Type 0
Behind k m = Each (λ j _. key_less k j ≡ true) m

-- The keys go up.
abbrev pub IsAscending : KeyMap → Type 0
IsAscending [] = Unit
IsAscending ((k, p) ∷ m) = Behind k m × IsAscending m

Behind-trans : (i j : Key) (m : KeyMap) → key_less i j ≡ true → Behind j m → Behind i m
Behind-trans i j [] h b = tt
Behind-trans i j ((k, p) ∷ m) h b = (key_less_trans i j k h b.0, Behind-trans i j m h b.1)

IsAscending-add_key :
    (k : Key) (p : Text) (m : KeyMap) → IsAscending m → IsAscending (add_key k p m)
unfolding add_key
IsAscending-add_key k p [] h = (tt, tt)
IsAscending-add_key k p ((j, q) ∷ m) h = elim (Bool-cases (key_less k j)) [
  | inl l ↦ rw l ((l, Behind-trans k j m l h.0), h)
  | inr l ↦ elim (Bool-cases (key_less j k)) [
    | inl g ↦
        rw (l, g)
          (Each-add_key (λ i _. key_less j i ≡ true) k p m h.0 g, IsAscending-add_key k p m h.1)
    | inr g ↦ rw (l, g) h
  ]
]

add_stamp :
    (o : Option Stamp) (p : Text) (m : KeyMap)
    → IsAscending m
    → IsAscending (elim o [ none ↦ m | some s ↦ add_key (s.year, s.week) p m ])
add_stamp none p m h = h
add_stamp (some s) p m h = IsAscending-add_key (s.year, s.week) p m h

IsAscending-week_map :
    (fs : List BackupFile) (m : KeyMap) → IsAscending m → IsAscending (week_map fs m)
unfolding week_map
IsAscending-week_map [] m h = h
IsAscending-week_map (f ∷ fs) m h =
    IsAscending-week_map fs (add_week f m) (add_stamp f.stamp f.path m h)

take-paths_of : (n : ℕ) (m : KeyMap) → take n (paths_of m) ≡ paths_of (take n m)
take-paths_of zero m = refl
take-paths_of (suc n) [] = refl
take-paths_of (suc n) ((k, p) ∷ m) = ap (◌∷◌ p) (take-paths_of n m)

Each-week_entry :
    (P : Key → Text → Type 0) (o : Option Stamp) (p : Text) (m : KeyMap)
    → Each P m
    → ((s : Stamp) → o ≡ some s → P (s.year, s.week) p)
    → Each P (elim o [ none ↦ m | some s ↦ add_key (s.year, s.week) p m ])
Each-week_entry P none p m h k = h
Each-week_entry P (some s) p m h k = Each-add_key P (s.year, s.week) p m h (k s refl)

Each-week_map :
    (P : Key → Text → Type 0) (fs : List BackupFile) (m : KeyMap)
    → Each P m
    → ((f : BackupFile) (s : Stamp) → Among fs f → f.stamp ≡ some s → P (s.year, s.week) f.path)
    → Each P (week_map fs m)
unfolding week_map
Each-week_map P [] m h k = h
Each-week_map P (f ∷ fs) m h k =
    Each-week_map P fs (add_week f m)
      (Each-week_entry P f.stamp f.path m h (λ s e. k f s (inl refl) e))
      (λ g s a e. k g s (inr a) e)

HasKey-week_entry :
    (i : Key) (o : Option Stamp) (p : Text) (m : KeyMap)
    → HasKey i m
    → HasKey i (elim o [ none ↦ m | some s ↦ add_key (s.year, s.week) p m ])
HasKey-week_entry i none p m h = h
HasKey-week_entry i (some s) p m h = HasKey-grows i (s.year, s.week) p m h

HasKey-week_map :
    (i : Key) (fs : List BackupFile) (m : KeyMap) → HasKey i m → HasKey i (week_map fs m)
unfolding week_map
HasKey-week_map i [] m h = h
HasKey-week_map i (f ∷ fs) m h =
    HasKey-week_map i fs (add_week f m) (HasKey-week_entry i f.stamp f.path m h)

new_week :
    (o : Option Stamp) (p : Text) (m : KeyMap) (s : Stamp)
    → o ≡ some s
    → HasKey (s.year, s.week) (elim o [ none ↦ m | some r ↦ add_key (r.year, r.week) p m ])
new_week o p m s e = rw e (HasKey-add_key (s.year, s.week) p m)

week_of_file :
    (fs : List BackupFile) (m : KeyMap) (f : BackupFile) (s : Stamp)
    → Among fs f
    → f.stamp ≡ some s
    → HasKey (s.year, s.week) (week_map fs m)
unfolding week_map
week_of_file [] m f s a e = absurd a
week_of_file (g ∷ fs) m f s (inl q) e =
    HasKey-week_map (s.year, s.week) fs (add_week g m)
      (new_week g.stamp g.path m s (ap (λ x. x.stamp) q ∙ e))
week_of_file (g ∷ fs) m f s (inr a) e = week_of_file fs (add_week g m) f s a e

-- A week has an entry among the first ones, or there are as many as asked for, all of earlier weeks.
abbrev pub TakenOrLater : ℕ → Key → KeyMap → Type 0
TakenOrLater n k kept = HasKey k kept ⊎ ((length kept ≡ n) × Each (λ j _. key_less j k ≡ true) kept)

later_key : (j k : Key) (m : KeyMap) → Behind j m → HasKey k m → key_less j k ≡ true
later_key j k [] b h = absurd h
later_key j k ((i, p) ∷ m) b (inl e) = subst (λ x. key_less j x ≡ true) e b.0
later_key j k ((i, p) ∷ m) b (inr h) = later_key j k m b.1 h

TakenOrLater-more :
    (n : ℕ) (k j : Key) (p : Text) (m : KeyMap)
    → key_less j k ≡ true
    → TakenOrLater n k m
    → TakenOrLater (suc n) k ((j, p) ∷ m)
TakenOrLater-more n k j p m l (inl h) = inl (inr h)
TakenOrLater-more n k j p m l (inr h) = inr (ap suc h.0, (l, h.1))

taken_or_later :
    (n : ℕ) (k : Key) (m : KeyMap) → IsAscending m → HasKey k m → TakenOrLater n k (take n m)
taken_or_later zero k m a h = inr (refl, tt)
taken_or_later (suc n) k [] a h = absurd h
taken_or_later (suc n) k ((j, p) ∷ m) a (inl e) = inl (inl e)
taken_or_later (suc n) k ((j, p) ∷ m) a (inr h) =
    TakenOrLater-more n k j p (take n m) (later_key j k m a.0 h) (taken_or_later n k m a.1 h)

Each-take : (P : Key → Text → Type 0) (n : ℕ) (m : KeyMap) → Each P m → Each P (take n m)
Each-take P zero m h = tt
Each-take P (suc n) [] h = tt
Each-take P (suc n) ((k, p) ∷ m) h = (h.0, Each-take P n m h.1)

IsAscending-take : (n : ℕ) (m : KeyMap) → IsAscending m → IsAscending (take n m)
IsAscending-take zero m h = tt
IsAscending-take (suc n) [] h = tt
IsAscending-take (suc n) ((k, p) ∷ m) h =
    (Each-take (λ j _. key_less k j ≡ true) n m h.0, IsAscending-take n m h.1)

-- A file of a list that has a week and a path.
pub record FileOf (fs : List BackupFile) (k : Key) (p : Text) : Type 0 where
  pub file : BackupFile
  pub stamp : Stamp
  pub among : Among fs file
  pub stamped : file.stamp ≡ some stamp
  pub year : stamp.year ≡ k.0
  pub week : stamp.week ≡ k.1
  pub path : file.path ≡ p

-- The files that the weekly tier keeps have different weeks, which go up; each is of a file behind the
-- recent ones that has this week; and the week of any file behind the recent ones is kept, unless as
-- many files are kept as the policy says and the weeks of all of them are earlier.
pub kept_weekly-earliest :
    (policy : RetentionPolicy) (sorted : List BackupFile)
    → (chosen : KeyMap) × (kept_weekly policy sorted ≡ paths_of chosen)
      × IsAscending chosen
      × Each (FileOf (drop policy.recent_count sorted)) chosen
      × ((f : BackupFile) (s : Stamp)
          → Among (drop policy.recent_count sorted) f
          → f.stamp ≡ some s
          → TakenOrLater policy.weekly_count (s.year, s.week) chosen)
unfolding kept_weekly
kept_weekly-earliest policy sorted =
    let rest = drop policy.recent_count sorted in
    let weeks = week_map rest [] in
    let up : IsAscending weeks = IsAscending-week_map rest [] tt in
    let files : Each (FileOf rest) weeks = Each-week_map (FileOf rest) rest [] tt (λ f s a e.
      record {
        file = f;
        stamp = s;
        among = a;
        stamped = e;
        year = refl;
        week = refl;
        path = refl;
      }) in
    (
      take policy.weekly_count weeks,
      take-paths_of policy.weekly_count weeks,
      IsAscending-take policy.weekly_count weeks up,
      Each-take (FileOf rest) policy.weekly_count weeks files,
      λ f s a e.
          taken_or_later policy.weekly_count (s.year, s.week) weeks up
            (week_of_file rest [] f s a e),
    )
