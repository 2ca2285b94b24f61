-- ===== src/Store/Saving/Clean.antt =====
-- After a commit that succeeds no entry has changes (store/src/store/position_store.cpp and the others).
use molar_tracker.Base.{
  ◌≡◌, refl, ap, ◌∙◌, sym, List, [], ◌∷◌, true, false, not, any, ok, err, arith, Result, subst,
}
use molar_tracker.Base.Int.{ℤ, is_negative}
use molar_tracker.Store.BaseStore.{
  StoreState, Identified, Entry, BaseStore, is_clean, is_dirty, notify_on_commit, notify_added,
  notify_removed, notify_updated, notify_store_changed,
}
use molar_tracker.Common.Exception.{Throws, ok_eq}
use molar_tracker.Store.Loop.{and_next, Failure, Outcome, Passed, view, walk, one_step}
use molar_tracker.Store.Saving.{finished, store_row, stored_entry, with_id}

abbrev AllClean : {T W : Type 0} → Passed T W → Type 0
AllClean (err x, es, w) = Unit
AllClean (ok u, es, w) = any (λ e. not (is_clean e.state)) es ≡ false

module _ {T W : Type 0} (create : T → W → (Throws T × W)) (settle : (old new : T) → W → W)
    (refused : Failure) where
  one_step-AllClean :
      (e : Entry T) (es : List (Entry T)) (r : Result Failure (Entry T) × W) (next : W → Passed T W)
      → ((d : Entry T) → r.0 ≡ ok d → is_clean d.state ≡ true)
      → ((w : W) → AllClean (next w))
      → AllClean (one_step e es r next)
  one_step-AllClean e es (err x, w) next h k = tt
  one_step-AllClean e es (ok d, w) next h k = go (next w) (k w)
    where
      go : (p : Passed T W) → AllClean p → AllClean (p.0, d ∷ p.1, p.2)
      go (err x, ds, u) c = tt
      go (ok x, ds, u) c = ground (arith, c, h d refl)

  stored_entry-is_clean :
      (old : T) (r : Throws T × W) (d : Entry T)
      → (stored_entry create settle refused old r).0 ≡ ok d
      → is_clean d.state ≡ true
  stored_entry-is_clean old (err x, w) d h = absurd (cc)
  stored_entry-is_clean old (ok v, w) d h = subst (λ e. is_clean e.state ≡ true) (ok_eq h) refl

  store_row-is_clean :
      (v : T) (state : StoreState) (w : W) (d : Entry T)
      → (store_row create settle refused (record { value = v; state = state }) w).0 ≡ ok d
      → is_clean d.state ≡ true
  unfolding store_row
  store_row-is_clean v StoreState.new w d h = stored_entry-is_clean v (create v w) d h
  store_row-is_clean v StoreState.clean w d h = subst (λ e. is_clean e.state ≡ true) (ok_eq h) refl
  store_row-is_clean v StoreState.modified w d h = absurd (cc)
  store_row-is_clean v StoreState.deleted w d h = absurd (cc)

  -- A pass that stores rows and does not stop leaves no entry with changes.
  pub walk-AllClean :
      (es : List (Entry T)) (w : W) → AllClean (walk (store_row create settle refused) es w)
  unfolding walk
  walk-AllClean [] w = refl
  walk-AllClean (e ∷ es) w =
      one_step-AllClean e es (store_row create settle refused e w)
        (walk (store_row create settle refused) es) (store_row-is_clean e.value e.state w)
        (walk-AllClean es)

module _ {T : Type 0} where
  notify_on_commit-entries : (s : BaseStore T) → (notify_on_commit s).entries ≡ s.entries
  unfolding notify_on_commit notify_added notify_removed notify_updated notify_store_changed
  notify_on_commit-entries s = ground arith

module _ {T W : Type 0} where
  -- The notifications at the end of a commit change no entry.
  pub view-finished : (o : Outcome T W) → view (and_next o finished) ≡ view o
  view-finished (err x, s, w) = refl
  view-finished (ok u, s, w) = ap (λ es. (ok tt, es, w)) (notify_on_commit-entries s)

  clean_after :
      (o : Outcome T W) (p : Passed T W)
      → view o ≡ p
      → AllClean p
      → o.0 ≡ ok tt
      → is_dirty o.1 ≡ false
  unfolding is_dirty
  clean_after o (err x, es, w) q c h = absurd (differ (sym h ∙ ap (λ t. t.0) q))
    where
      differ : Path (Result Failure (Unit {0})) (ok tt) (err x) → ⊥
      differ k = cc
  clean_after o (ok u, es, w) q c h =
      ap (λ ds. any (λ (e : Entry T). not (is_clean e.state)) ds) (ap (λ t. t.1) q) ∙ c

  -- A commit that stores rows and succeeds leaves no entry with changes.
  pub is_dirty-walk :
      (o : Outcome T W) (create : T → W → (Throws T × W)) (settle : (old new : T) → W → W)
      (refused : Failure) (es : List (Entry T)) (w : W)
      → view o ≡ walk (store_row create settle refused) es w
      → o.0 ≡ ok tt
      → is_dirty o.1 ≡ false
  is_dirty-walk o create settle refused es w q h =
      clean_after o (walk (store_row create settle refused) es w) q
        (walk-AllClean create settle refused es w) h

  -- An identifier that the database gives is not negative, also as that of the value.
  pub with_id-is_row :
      (I : Identified T) (v x : T) (r : Throws ℤ × W)
      → ((i : ℤ) → r.0 ≡ ok i → is_negative i ≡ false)
      → (with_id I v r).0 ≡ ok x
      → is_negative (I.get_id x) ≡ false
  with_id-is_row I v x (err e, w) k h = absurd (cc)
  with_id-is_row I v x (ok i, w) k h =
      subst (λ y. is_negative (I.get_id y) ≡ false) (ok_eq h) (rw (I.get_set v i) (k i refl))

  -- If a loop ends without a failure and what follows leaves no entry with changes, the whole does.
  pub is_dirty-and_next :
      (o : Outcome T W) (next : BaseStore T → W → Outcome T W)
      → ((s : BaseStore T) (w : W)
          → o ≡ (ok tt, s, w)
          → (next s w).0 ≡ ok tt
          → is_dirty (next s w).1 ≡ false)
      → (and_next o next).0 ≡ ok tt
      → is_dirty (and_next o next).1 ≡ false
  is_dirty-and_next (err x, s, w) next k h = absurd (cc)
  is_dirty-and_next (ok u, s, w) next k h = k s w refl h
