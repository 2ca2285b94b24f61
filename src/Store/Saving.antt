-- ===== src/Store/Saving.antt =====
-- Saving the new entries of a store, in the form that the commits of the stores share
-- (store/src/store/position_store.cpp and the others).
pub mod Clean
use molar_tracker.Base.{
  ◌≡◌, refl, ap, ◌∙◌, sym, Option, some, List, [], ◌∷◌, ◌++◌, Bool, true, false, ◌&&◌, ◌||◌, not,
  any, all, ok, err, arith, Result, subst,
}
use molar_tracker.Base.Int.{ℤ, is_negative, eqb_ℤ-refl, eqb_ℤ→eq}
use molar_tracker.Store.BaseStore.{
  StoreState, StoreResult, Identified, Entry, BaseStore, has_id, find_entry, write_entry, is_clean,
  is_dirty, commit_entry, committed, remapped, notify_on_commit, notify_added, notify_removed,
  notify_updated, notify_store_changed,
}
use molar_tracker.Common.Exception.{Throws, ok_eq}
use molar_tracker.Store.Loop.{
  and_next, Failure, Outcome, Passed, Step, view, walk, one_step, Follows, for_each_entry,
  for_each_entry-walk,
}

pub any-middle :
    {A : Type 0} (f : A → Bool) (xs ys : List A) (x : A)
    → any f (xs ++ x ∷ ys) ≡ (any f xs || (f x || any f ys))
any-middle f [] ys x = refl
any-middle f (y ∷ xs) ys x = ground (arith, any-middle f xs ys x)

pub all-middle :
    {A : Type 0} (f : A → Bool) (xs ys : List A) (x : A)
    → all f (xs ++ x ∷ ys) ≡ (all f xs && (f x && all f ys))
all-middle f [] ys x = refl
all-middle f (y ∷ xs) ys x = ground (arith, all-middle f xs ys x)

module _ {T : Type 0} (I : Identified T) where
  pub write_entry-middle :
      (xs ys : List (Entry T)) (e : Entry T) (i : ℤ) (f : Entry T → Entry T)
      → any (has_id I i) xs ≡ false
      → has_id I i e ≡ true
      → write_entry I i f (xs ++ e ∷ ys) ≡ xs ++ f e ∷ ys
  unfolding write_entry
  write_entry-middle [] ys e i f h k = rw k refl
  write_entry-middle (x ∷ xs) ys e i f h k = ground (arith, write_entry-middle xs ys e i f)

  pub find_entry-middle :
      (xs ys : List (Entry T)) (e : Entry T) (i : ℤ)
      → any (has_id I i) xs ≡ false
      → has_id I i e ≡ true
      → find_entry I i (xs ++ e ∷ ys) ≡ some e
  find_entry-middle [] ys e i h k = rw k refl
  find_entry-middle (x ∷ xs) ys e i h k = ground (arith, find_entry-middle xs ys e i)

  -- A clean entry with an identifier of the database.
  abbrev pub is_saved : Entry T → Bool
  is_saved e = is_clean e.state && not (is_negative (I.get_id e.value))

  pub is_saved-absent :
      (es : List (Entry T)) (i : ℤ)
      → all is_saved es ≡ true
      → is_negative i ≡ true
      → any (has_id I i) es ≡ false
  is_saved-absent [] i h n = refl
  is_saved-absent (e ∷ es) i h n =
      ground (arith, is_saved-absent es i, eqb_ℤ→eq (I.get_id e.value) i)

  pub commit_entry-middle :
      (xs ys : List (Entry T)) (e : Entry T) (v : T) (s : BaseStore T)
      → s.entries ≡ xs ++ e ∷ ys
      → any (has_id I (I.get_id e.value)) xs ≡ false
      → (t : BaseStore T) × (commit_entry I
            (I.get_id e.value)
            (record { value = v; state = StoreState.new })
            s
          ≡ some (StoreResult.store_ok, t))
        × (t.entries ≡ xs ++ record { value = v; state = StoreState.clean } ∷ ys)
  unfolding commit_entry committed
  commit_entry-middle xs ys e v s h absent =
      let i = I.get_id e.value in
      let present = eqb_ℤ-refl i in
      let found : find_entry I i s.entries ≡ some e =
        ap (find_entry I i) h ∙ find_entry-middle xs ys e i absent present in
      let write : List (Entry T) → List (Entry T) =
        write_entry I i (λ y. record { value = v; state = StoreState.clean }) in
      let t : BaseStore T = record (remapped I i (record { value = v; state = StoreState.new }) s) {
        entries = write s.entries;
      } in
      (
        t,
        rw (commit_entry, found) refl,
        ap write h
            ∙ write_entry-middle xs ys e i (λ y. record { value = v; state = StoreState.clean })
                absent present,
      )

  -- A new entry has a negative identifier, and a clean one does not.
  unfoldable pub savable : Entry T → Bool
  savable e = elim e.state [
    | StoreState.new ↦ is_negative (I.get_id e.value)
    | StoreState.clean ↦ not (is_negative (I.get_id e.value))
    | StoreState.modified ↦ true
    | StoreState.deleted ↦ true
  ]

-- What a commit does around `_commitEntry`: `create` writes a new value to the database and returns it
-- with the identifiers that it has there, or throws; `proceed` goes on with the old value, the new one
-- and the result of the call, and a changed entry ends with `refused`.
pub record Writing (T W : Type 0) : Type 0 where
  pub create : T → W → (Throws T × W)
  pub proceed : (old new : T) → Option (StoreResult × BaseStore T) → BaseStore T → W → Outcome T W
  pub refused : Failure

-- A value with the identifier that it was given.
abbrev pub with_id : {T W : Type 0} → Identified T → T → (Throws ℤ × W) → (Throws T × W)
with_id I v (err x, w) = (err x, w)
with_id I v (ok i, w) = (ok (I.set_id v i), w)

module _ {T W : Type 0} (create : T → W → (Throws T × W)) (settle : (old new : T) → W → W)
    (refused : Failure) where
  abbrev pub stored_entry : T → (Throws T × W) → (Result Failure (Entry T) × W)
  stored_entry old (err x, w) = (err (Failure.thrown x), w)
  stored_entry old (ok v, w) = (ok (record { value = v; state = StoreState.clean }), settle old v w)

  -- Storing a row: a new value is created in the database, and is clean afterwards.
  unfoldable pub store_row : Step T W
  store_row e w = elim e.state [
    | StoreState.new ↦ stored_entry e.value (create e.value w)
    | StoreState.clean ↦ (ok e, w)
    | StoreState.modified ↦ (err refused, w)
    | StoreState.deleted ↦ (err refused, w)
  ]

module _ {T W : Type 0} (I : Identified T) (A : Writing T W) where
  abbrev pub save_created : T → (Throws T × W) → BaseStore T → Outcome T W
  save_created old (err x, w) s = (err (Failure.thrown x), s, w)
  save_created old (ok v, w) s =
      A.proceed old v
        (commit_entry I (I.get_id old) (record { value = v; state = StoreState.new }) s) s w

  -- A round of a commit: a new entry is created in the database and committed under its identifier
  -- there, a clean one is left alone, and a changed one is refused.
  unfoldable pub save : Entry T → BaseStore T → W → Outcome T W
  save e s w = elim e.state [
    | StoreState.new ↦ save_created e.value (A.create e.value w) s
    | StoreState.clean ↦ (ok tt, s, w)
    | StoreState.modified ↦ (err A.refused, s, w)
    | StoreState.deleted ↦ (err A.refused, s, w)
  ]

-- The database gives a new row an identifier that is not negative, and a round goes on after the entry
-- was found.
pub record WritesRows {T W : Type 0} (I : Identified T) (A : Writing T W)
    (settle : (old new : T) → W → W) : Type 0 where
  pub is_row : (v x : T) (w : W) → (A.create v w).0 ≡ ok x → is_negative (I.get_id x) ≡ false
  pub goes_on :
      (v x : T) (t s : BaseStore T) (w : W)
      → A.proceed v x (some (StoreResult.store_ok, t)) s w ≡ (ok tt, t, settle v x w)

module _ {T W : Type 0} (I : Identified T) (A : Writing T W) (settle : (old new : T) → W → W)
    (rows : WritesRows I A settle) where
  abbrev Underway : List (Entry T) → List (Entry T) → Type 0
  Underway before after = (all (is_saved I) before ≡ true) × (all (savable I) after ≡ true)

  created-Follows :
      (v : T) (before after : List (Entry T)) (s : BaseStore T) (r : Throws T × W)
      → s.entries ≡ before ++ record { value = v; state = StoreState.new } ∷ after
      → Underway before (record { value = v; state = StoreState.new } ∷ after)
      → ((x : T) → r.0 ≡ ok x → is_negative (I.get_id x) ≡ false)
      → Follows Underway before after
          (record { value = v; state = StoreState.new })
          (save_created I A v r s)
          (stored_entry A.create settle A.refused v r)
  unfolding savable
  created-Follows v before after s (err x, w) h (b, c) k =
      ap (λ es. (err (Failure.thrown x), es, w)) h
  created-Follows v before after s (ok x, w) h (b, c) k =
      let n : is_negative (I.get_id v) ≡ true = ground (arith, c) in
      let t =
        commit_entry-middle I before after (record { value = v; state = StoreState.new }) x s h
          (is_saved-absent I before (I.get_id v) b n) in
      (
        ap (λ o. view (A.proceed v x o s w)) t.1
            ∙ ap view (rows.goes_on v x t.0 s w)
            ∙ ap (λ es. (ok tt, es, settle v x w)) t.2,
        (
          rw
              (
                all-middle (is_saved I) before [] (record { value = x; state = StoreState.clean }),
                b,
                k x refl,
              )
              refl,
          ground (arith, c),
        ),
      )

  save-Follows :
      (v : T) (state : StoreState) (before after : List (Entry T)) (s : BaseStore T) (w : W)
      → s.entries ≡ before ++ record { value = v; state = state } ∷ after
      → Underway before (record { value = v; state = state } ∷ after)
      → Follows Underway before after
          (record { value = v; state = state })
          (save I A (record { value = v; state = state }) s w)
          (store_row A.create settle A.refused (record { value = v; state = state }) w)
  unfolding save savable store_row
  save-Follows v StoreState.new before after s w h k =
      created-Follows v before after s (A.create v w) h k (λ x. rows.is_row v x w)
  save-Follows v StoreState.clean before after s w h (b, c) = (
    ap (λ es. (ok tt, es, w)) h,
    (
      ground (
        arith,
        all-middle (is_saved I) before [] (record { value = v; state = StoreState.clean }),
        b,
        c,
      ),
      ground (arith, c),
    ),
  )
  save-Follows v StoreState.modified before after s w h k = ap (λ es. (err A.refused, es, w)) h
  save-Follows v StoreState.deleted before after s w h k = ap (λ es. (err A.refused, es, w)) h

  -- The loop of a commit stores the entries one after the other.
  pub save-walk :
      (s : BaseStore T) (w : W)
      → all (savable I) s.entries ≡ true
      → view (for_each_entry (save I A) s w)
        ≡ walk (store_row A.create settle A.refused) s.entries w
  save-walk s w h =
      for_each_entry-walk (save I A) (store_row A.create settle A.refused) Underway
        (λ e before after s w h k. save-Follows e.value e.state before after s w h k) s w (refl, h)

-- The end of a commit that was not stopped.
abbrev pub finished : {T W : Type 0} → BaseStore T → W → Outcome T W
finished s w = (ok tt, notify_on_commit s, w)
