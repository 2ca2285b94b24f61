-- ===== src/Store/Fresh.antt =====
-- The identifiers that a store gives out are not in use (store/src/store/base/base_store.tpp).
use molar_tracker.Base.{◌≡◌, refl, none, inl, inr, arith, ap, Bool-cases, ◌∙◌}
use molar_tracker.Base.Int.{ℤ, pos, pos_part, neg_part, ◌-ℤ◌, ◌≤ℤ◌, eqb_ℤ, int_laws, eqb_ℤ→eq}
use molar_tracker.Store.BaseStore.{
  StoreState, Identified, BaseStore, find_entry, add_entry, update_entry, remove_entry,
  delete_entry, finish_delete, mark_potentially_dirty, notify_added, notify_updated, notify_removed,
  notify_store_changed,
}
use molar_tracker.Store.Lookup.{
  add_entry-find_entry, update_entry-find_entry, delete_entry-find_entry,
}

module _ {T : Type 0} (I : Identified T) where
  -- No entry has the next identifier or a lower one.
  abbrev pub IsFresh : BaseStore T → Type 0
  IsFresh s = (j : ℤ) → j ≤ℤ s.next_id → find_entry I j s.entries ≡ none

  add_entry-next_id : (v : T) (s : BaseStore T) → (add_entry I v s).1.next_id ≡ s.next_id -ℤ pos 1
  unfolding add_entry mark_potentially_dirty notify_added notify_store_changed
  add_entry-next_id v s = refl

  update_entry-next_id :
      (v : T) (state : StoreState) (s : BaseStore T)
      → (update_entry I v state s).1.next_id ≡ s.next_id
  unfolding update_entry mark_potentially_dirty notify_updated notify_store_changed
  update_entry-next_id v state s = ground arith

  delete_entry-next_id : (i : ℤ) (s : BaseStore T) → (delete_entry I i s).1.next_id ≡ s.next_id
  unfolding delete_entry remove_entry finish_delete update_entry mark_potentially_dirty
      notify_updated notify_removed notify_store_changed
  delete_entry-next_id i s = ground arith

  add_entry-IsFresh : (v : T) (s : BaseStore T) → IsFresh s → IsFresh (add_entry I v s).1
  add_entry-IsFresh v s h j k =
      let l = rw (add_entry-next_id v s) at k in
      (add_entry-find_entry I v s j (h s.next_id (omega int_laws))).1
      ∙ elim (Bool-cases (eqb_ℤ s.next_id j)) [
        | inl e ↦ absurd (
            omega (
              int_laws,
              l,
              ap pos_part (eqb_ℤ→eq s.next_id j e),
              ap neg_part (eqb_ℤ→eq s.next_id j e),
            ))
        | inr e ↦ rw e (h j (omega (int_laws, l)))
      ]

  update_entry-IsFresh :
      (v : T) (state : StoreState) (s : BaseStore T)
      → IsFresh s
      → IsFresh (update_entry I v state s).1
  update_entry-IsFresh v state s h j k =
      let l = h j (rw (update_entry-next_id v state s) at k) in
      ground (arith, l, (update_entry-find_entry I v state s j).0, eqb_ℤ→eq (I.get_id v) j)

  delete_entry-IsFresh : (i : ℤ) (s : BaseStore T) → IsFresh s → IsFresh (delete_entry I i s).1
  delete_entry-IsFresh i s h j k =
      let l = h j (rw (delete_entry-next_id i s) at k) in
      ground (arith, l, delete_entry-find_entry I i j s, eqb_ℤ→eq i j)

  -- Adding, updating and deleting keep every identifier from the next one down unused.
  pub operations-IsFresh :
      (v : T) (state : StoreState) (i : ℤ) (s : BaseStore T)
      → IsFresh s
      → IsFresh (add_entry I v s).1
        × IsFresh (update_entry I v state s).1
        × IsFresh (delete_entry I i s).1
  operations-IsFresh v state i s h =
      (add_entry-IsFresh v s h, update_entry-IsFresh v state s h, delete_entry-IsFresh i s h)
