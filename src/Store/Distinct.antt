-- ===== src/Store/Distinct.antt =====
-- Stores whose entries have different identifiers (store/src/store/base/base_store.tpp).
use molar_tracker.Base.{
  ◌≡◌, refl, ap, ◌∙◌, some, List, [], ◌∷◌, ◌++◌, Bool, true, false, ◌&&◌, not, any, arith,
}
use molar_tracker.Base.Int.{ℤ, eqb_ℤ-refl}
use molar_tracker.Store.BaseStore.{
  StoreState, Identified, Entry, BaseStore, has_id, find_entry, write_entry, update_entry,
  mark_potentially_dirty, notify_updated, notify_store_changed,
}
use molar_tracker.Store.Saving.{any-middle, write_entry-middle, find_entry-middle}

module _ {T : Type 0} (I : Identified T) where
  abbrev pub id_of : Entry T → ℤ
  id_of e = I.get_id e.value

  -- No two entries have one identifier.
  abbrev pub distinct : List (Entry T) → Bool
  distinct [] = true
  distinct (x ∷ es) = not (any (λ e. has_id I (id_of e) x) es) && distinct es

  pub distinct-middle :
      (xs ys : List (Entry T)) (e : Entry T)
      → distinct (xs ++ e ∷ ys) ≡ true
      → any (has_id I (id_of e)) xs ≡ false
  distinct-middle [] ys e h = refl
  distinct-middle (x ∷ xs) ys e h =
      ground (arith, distinct-middle xs ys e, any-middle (λ d. has_id I (id_of d) x) xs ys e)

  pub distinct-replace :
      (xs ys : List (Entry T)) (d e : Entry T)
      → id_of d ≡ id_of e
      → distinct (xs ++ d ∷ ys) ≡ distinct (xs ++ e ∷ ys)
  distinct-replace [] ys d e h = rw h refl
  distinct-replace (x ∷ xs) ys d e h =
      rw
        (
          any-middle (λ d. has_id I (id_of d) x) xs ys d,
          any-middle (λ d. has_id I (id_of d) x) xs ys e,
          distinct-replace xs ys d e h,
          h,
        )
        refl

  pub update_entry-middle :
      (t : T) (s : BaseStore T) (xs ys : List (Entry T)) (e : Entry T)
      → s.entries ≡ xs ++ e ∷ ys
      → distinct (xs ++ e ∷ ys) ≡ true
      → I.get_id t ≡ id_of e
      → (update_entry I t StoreState.new s).1.entries
        ≡ xs ++ record { value = t; state = StoreState.new } ∷ ys
  unfolding update_entry mark_potentially_dirty notify_updated notify_store_changed
  update_entry-middle t s xs ys e h d q =
      let absent : any (has_id I (I.get_id t)) xs ≡ false = rw q (distinct-middle xs ys e d) in
      let present : has_id I (I.get_id t) e ≡ true = rw q (eqb_ℤ-refl (id_of e)) in
      let found : find_entry I (I.get_id t) s.entries ≡ some e =
        ap (find_entry I (I.get_id t)) h
        ∙ find_entry-middle I xs ys e (I.get_id t) absent present in
      rw (update_entry, found)
        (ap (write_entry I (I.get_id t) (λ x. record { value = t; state = StoreState.new })) h
          ∙ write_entry-middle I xs ys e (I.get_id t)
              (λ x. record { value = t; state = StoreState.new }) absent present)
