-- ===== src/Db/Backup/Retention.antt =====
-- What pruning the backups leaves (db/src/db/backup_manager.cpp).
use molar_tracker.Base.{
  ℕ, zero, suc, ◌≡◌, refl, sym, ap, ◌∙◌, Option, none, some, List, [], ◌∷◌, ◌++◌, Bool, true, false,
  not, if◌then◌else◌, filter_if, map, take, drop, ◌⊎◌, inl, inr, Bool-cases, arith, subst,
}
use molar_tracker.Base.Int.{eq_of_parts}
use molar_tracker.Base.Text.{Text, text_eq}
use molar_tracker.Db.Backup.{
  Stamp, BackupFile, RetentionPolicy, Key, KeyMap, key_less, add_key, contains_path, month_entry,
  add_month, month_map, paths_of, kept_recent, kept_weekly, kept_two, kept, prune,
}

abbrev pub Among : {A : Type 0} → List A → A → Type 0
Among [] x = ⊥
Among (y ∷ ys) x = (y ≡ x) ⊎ Among ys x

abbrev pub HasKey : Key → KeyMap → Type 0
HasKey k [] = ⊥
HasKey k ((j, q) ∷ m) = (j ≡ k) ⊎ HasKey k m

abbrev pub Each : (Key → Text → Type 0) → KeyMap → Type 0
Each P [] = Unit
Each P ((j, q) ∷ m) = P j q × Each P m

same_key : (k j : Key) → key_less k j ≡ false → key_less j k ≡ false → j ≡ k
same_key (a, b) (c, d) h e =
    let years : c ≡ a = eq_of_parts c a (ground arith) in
    let rest : d ≡ b = ground arith in ap (λ x. (x, d)) years ∙ ap (λ x. (a, x)) rest

pub Each-add_key :
    (P : Key → Text → Type 0) (k : Key) (p : Text) (m : KeyMap)
    → Each P m
    → P k p
    → Each P (add_key k p m)
unfolding add_key
Each-add_key P k p [] h e = (e, tt)
Each-add_key P k p ((j, q) ∷ m) h e = elim (Bool-cases (key_less k j)) [
  | inl l ↦ rw l (e, h)
  | inr l ↦ elim (Bool-cases (key_less j k)) [
    | inl g ↦ rw (l, g) (h.0, Each-add_key P k p m h.1 e)
    | inr g ↦ rw (l, g) h
  ]
]

pub HasKey-add_key : (k : Key) (p : Text) (m : KeyMap) → HasKey k (add_key k p m)
unfolding add_key
HasKey-add_key k p [] = inl refl
HasKey-add_key k p ((j, q) ∷ m) = elim (Bool-cases (key_less k j)) [
  | inl l ↦ rw l (inl refl)
  | inr l ↦ elim (Bool-cases (key_less j k)) [
    | inl g ↦ rw (l, g) (inr (HasKey-add_key k p m))
    | inr g ↦ rw (l, g) (inl (same_key k j l g))
  ]
]

pub HasKey-grows : (i k : Key) (p : Text) (m : KeyMap) → HasKey i m → HasKey i (add_key k p m)
unfolding add_key
HasKey-grows i k p [] h = absurd h
HasKey-grows i k p ((j, q) ∷ m) h = elim (Bool-cases (key_less k j)) [
  | inl l ↦ rw l (inr h)
  | inr l ↦ elim (Bool-cases (key_less j k)) [
    | inl g ↦ rw (l, g) (elim h [ inl e ↦ inl e | inr r ↦ inr (HasKey-grows i k p m r) ])
    | inr g ↦ rw (l, g) h
  ]
]

Each-month_entry :
    (P : Key → Text → Type 0) (b : Bool) (o : Option Stamp) (p : Text) (m : KeyMap)
    → Each P m
    → ((s : Stamp) → o ≡ some s → P (s.year, s.month) p)
    → Each P (month_entry b o p m)
Each-month_entry P b none p m h k = h
Each-month_entry P true (some s) p m h k = h
Each-month_entry P false (some s) p m h k = Each-add_key P (s.year, s.month) p m h (k s refl)

Each-month_map :
    (P : Key → Text → Type 0) (keep : List Text) (fs : List BackupFile) (m : KeyMap)
    → Each P m
    → ((f : BackupFile) (s : Stamp) → Among fs f → f.stamp ≡ some s → P (s.year, s.month) f.path)
    → Each P (month_map keep fs m)
unfolding month_map
Each-month_map P keep [] m h k = h
Each-month_map P keep (f ∷ fs) m h k =
    Each-month_map P keep fs (add_month keep f m)
      (Each-month_entry P (contains_path keep f.path) f.stamp f.path m h
        (λ s e. k f s (inl refl) e))
      (λ g s a e. k g s (inr a) e)

HasKey-month_entry :
    (i : Key) (b : Bool) (o : Option Stamp) (p : Text) (m : KeyMap)
    → HasKey i m
    → HasKey i (month_entry b o p m)
HasKey-month_entry i b none p m h = h
HasKey-month_entry i true (some s) p m h = h
HasKey-month_entry i false (some s) p m h = HasKey-grows i (s.year, s.month) p m h

HasKey-month_map :
    (i : Key) (keep : List Text) (fs : List BackupFile) (m : KeyMap)
    → HasKey i m
    → HasKey i (month_map keep fs m)
unfolding month_map
HasKey-month_map i keep [] m h = h
HasKey-month_map i keep (f ∷ fs) m h =
    HasKey-month_map i keep fs (add_month keep f m)
      (HasKey-month_entry i (contains_path keep f.path) f.stamp f.path m h)

new_month :
    (b : Bool) (o : Option Stamp) (p : Text) (m : KeyMap) (s : Stamp)
    → b ≡ false
    → o ≡ some s
    → HasKey (s.year, s.month) (month_entry b o p m)
new_month b o p m s h e = rw (h, e) (HasKey-add_key (s.year, s.month) p m)

HasKey-file :
    (keep : List Text) (fs : List BackupFile) (m : KeyMap) (f : BackupFile) (s : Stamp)
    → Among fs f
    → f.stamp ≡ some s
    → contains_path keep f.path ≡ false
    → HasKey (s.year, s.month) (month_map keep fs m)
unfolding month_map
HasKey-file keep [] m f s a e h = absurd a
HasKey-file keep (g ∷ fs) m f s (inl q) e h =
    HasKey-month_map (s.year, s.month) keep fs (add_month keep g m)
      (new_month (contains_path keep g.path) g.stamp g.path m s
        (ap (λ x. contains_path keep x.path) q ∙ h) (ap (λ x. x.stamp) q ∙ e))
HasKey-file keep (g ∷ fs) m f s (inr a) e h = HasKey-file keep fs (add_month keep g m) f s a e h

entry_of :
    (P : Key → Text → Type 0) (k : Key) (m : KeyMap)
    → Each P m
    → HasKey k m
    → (p : Text) × P k p × Among (paths_of m) p
entry_of P k [] e h = absurd h
entry_of P k ((j, q) ∷ m) e (inl r) = (q, subst (λ x. P x q) r e.0, inl refl)
entry_of P k ((j, q) ∷ m) e (inr h) =
    let rest = entry_of P k m e.1 h in (rest.0, rest.1, inr rest.2)

text_eq_refl : (t : Text) → text_eq t t ≡ true
text_eq_refl [] = refl
text_eq_refl (x ∷ t) = ground (arith, text_eq_refl t)

contains-Among : (ps : List Text) (p : Text) → Among ps p → contains_path ps p ≡ true
contains-Among [] p a = absurd a
contains-Among (q ∷ ps) p (inl e) = rw (e, text_eq_refl p) refl
contains-Among (q ∷ ps) p (inr a) = ground (arith, contains-Among ps p a)

Among-left : {A : Type 0} (xs ys : List A) (x : A) → Among xs x → Among (xs ++ ys) x
Among-left [] ys x a = absurd a
Among-left (z ∷ xs) ys x (inl e) = inl e
Among-left (z ∷ xs) ys x (inr a) = inr (Among-left xs ys x a)

Among-right : {A : Type 0} (xs ys : List A) (x : A) → Among ys x → Among (xs ++ ys) x
Among-right [] ys x a = a
Among-right (z ∷ xs) ys x a = inr (Among-right xs ys x a)

contains-append :
    (ps qs : List Text) (p : Text) → contains_path ps p ≡ true → contains_path (ps ++ qs) p ≡ true
contains-append [] qs p h = absurd (cc)
contains-append (r ∷ ps) qs p h = ground (arith, contains-append ps qs p)

Among-split :
    (n : ℕ) (xs : List BackupFile) (x : BackupFile)
    → Among xs x
    → Among (take n xs) x ⊎ Among (drop n xs) x
Among-split zero xs x a = inr a
Among-split (suc n) [] x a = absurd a
Among-split (suc n) (y ∷ xs) x (inl e) = inl (inl e)
Among-split (suc n) (y ∷ xs) x (inr a) = elim (Among-split n xs x a) [
  | inl b ↦ inl (inr b)
  | inr b ↦ inr b
]

Among-drop : (n : ℕ) (xs : List BackupFile) (x : BackupFile) → Among (drop n xs) x → Among xs x
Among-drop zero xs x a = a
Among-drop (suc n) [] x a = a
Among-drop (suc n) (y ∷ xs) x a = inr (Among-drop n xs x a)

Among-path :
    (fs : List BackupFile) (f : BackupFile) → Among fs f → Among (map (λ g. g.path) fs) f.path
Among-path [] f a = absurd a
Among-path (g ∷ fs) f (inl e) = inl (ap (λ x. x.path) e)
Among-path (g ∷ fs) f (inr a) = inr (Among-path fs f a)

passes_kept :
    (p : BackupFile → Bool) (b : Bool) (g : BackupFile) (rest : List BackupFile) (f : BackupFile)
    → p g ≡ b
    → ((Among rest f) → p f ≡ true)
    → Among (if b then g ∷ rest else rest) f
    → p f ≡ true
passes_kept p true g rest f h k (inl e) = ap p (sym e) ∙ h
passes_kept p true g rest f h k (inr a) = k a
passes_kept p false g rest f h k a = k a

passes :
    (p : BackupFile → Bool) (fs : List BackupFile) (f : BackupFile)
    → Among (filter_if p fs) f
    → p f ≡ true
passes p [] f a = absurd a
passes p (g ∷ fs) f a = passes_kept p (p g) g (filter_if p fs) f refl (passes p fs f) a

module _ (policy : RetentionPolicy) (sorted : List BackupFile) where
  kept-not_pruned :
      (f : BackupFile)
      → contains_path (kept policy sorted) f.path ≡ true
      → Among (prune policy sorted) f
      → ⊥
  unfolding prune
  kept-not_pruned f h a =
      let t : not (contains_path (kept policy sorted) f.path) ≡ true =
        passes (λ g. not (contains_path (kept policy sorted) g.path)) sorted f a in
      ground arith

  recent-kept :
      (f : BackupFile)
      → Among (take policy.recent_count sorted) f
      → contains_path (kept_two policy sorted) f.path ≡ true
  unfolding kept_two kept_recent
  recent-kept f a =
      contains-append (map (λ g. g.path) (take policy.recent_count sorted))
        (kept_weekly policy sorted) f.path
        (contains-Among _ f.path (Among-path (take policy.recent_count sorted) f a))

  two-kept :
      (p : Text)
      → contains_path (kept_two policy sorted) p ≡ true
      → contains_path (kept policy sorted) p ≡ true
  unfolding kept
  two-kept p h = contains-append (kept_two policy sorted) _ p h

  -- A file of a month that is not removed.
  pub record Survivor (month_of : Stamp) : Type 0 where
    pub file : BackupFile
    pub stamp : Stamp
    pub among : Among sorted file
    pub stamped : file.stamp ≡ some stamp
    pub year : stamp.year ≡ month_of.year
    pub month : stamp.month ≡ month_of.month
    pub remains : ¬ (Among (prune policy sorted) file)

  -- What a path in the map of months stands for.
  record Stands (k : Key) (p : Text) : Type 0 where
    file : BackupFile
    stamp : Stamp
    among : Among (drop policy.recent_count sorted) file
    stamped : file.stamp ≡ some stamp
    key : (stamp.year, stamp.month) ≡ k
    path : file.path ≡ p

  months : KeyMap
  months = month_map (kept_two policy sorted) (drop policy.recent_count sorted) []

  Survivor-itself :
      (f : BackupFile) (s : Stamp)
      → Among sorted f
      → f.stamp ≡ some s
      → contains_path (kept policy sorted) f.path ≡ true
      → Survivor s
  Survivor-itself f s a e h = record {
    file = f;
    stamp = s;
    among = a;
    stamped = e;
    year = refl;
    month = refl;
    remains = kept-not_pruned f h;
  }

  Survivor-of_entry :
      (s : Stamp) (p : Text) → Stands (s.year, s.month) p → Among (paths_of months) p → Survivor s
  unfolding kept months
  Survivor-of_entry s p h a = record {
    file = h.file;
    stamp = h.stamp;
    among = Among-drop policy.recent_count sorted h.file h.among;
    stamped = h.stamped;
    year = ap (λ k. k.0) h.key;
    month = ap (λ k. k.1) h.key;
    remains = kept-not_pruned h.file (
        ap (contains_path (kept policy sorted)) h.path
        ∙ contains-Among (kept policy sorted) p
            (Among-right (kept_two policy sorted) (paths_of months) p a));
  }

  Survivor-of_month :
      (f : BackupFile) (s : Stamp)
      → Among (drop policy.recent_count sorted) f
      → f.stamp ≡ some s
      → contains_path (kept_two policy sorted) f.path ≡ false
      → Survivor s
  unfolding months
  Survivor-of_month f s a e h =
      let found =
        entry_of Stands (s.year, s.month) months
          (Each-month_map Stands (kept_two policy sorted) (drop policy.recent_count sorted) [] tt
            (λ g t b q. record {
              file = g;
              stamp = t;
              among = b;
              stamped = q;
              key = refl;
              path = refl;
            }))
          (HasKey-file (kept_two policy sorted) (drop policy.recent_count sorted) [] f s a e h) in
      Survivor-of_entry s found.0 found.1 found.2

  survivor : (f : BackupFile) (s : Stamp) → Among sorted f → f.stamp ≡ some s → Survivor s
  survivor f s a e = elim (Bool-cases (contains_path (kept_two policy sorted) f.path)) [
    | inl h ↦ Survivor-itself f s a e (two-kept f.path h)
    | inr h ↦ elim (Among-split policy.recent_count sorted f a) [
      | inl b ↦ Survivor-itself f s a e (two-kept f.path (recent-kept f b))
      | inr b ↦ Survivor-of_month f s b e h
    ]
  ]

  -- Pruning removes none of the most recent files, as many as the policy says, and for each file with a
  -- time stamp, a file of the same month and year remains.
  pub prune-survivors :
      ((f : BackupFile)
        → Among (take policy.recent_count sorted) f
        → ¬ (Among (prune policy sorted) f))
      × ((f : BackupFile) (s : Stamp) → Among sorted f → f.stamp ≡ some s → Survivor s)
  prune-survivors = ((λ f a. kept-not_pruned f (two-kept f.path (recent-kept f a))), survivor)
