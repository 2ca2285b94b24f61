-- ===== src/Store/Lookup.antt =====
-- What a store holds after each operation (store/src/store/base/base_store.tpp).
use molar_tracker.Base.{
  ◌≡◌, refl, subst, ◌∙◌, none, some, List, [], ◌∷◌, ◌++◌, true, false, not, if◌then◌else◌,
  filter_if, arith, ◌⊎◌, inl, inr, Option-cases, ◌||◌,
}
use molar_tracker.Base.Int.{ℤ, eqb_ℤ, eqb_ℤ-refl, eqb_ℤ→eq}
use mathlib.Core.Option
use molar_tracker.Store.BaseStore.{
  remapped, StoreState, StoreResult, Identified, Entry, BaseStore, clean, new, modified, deleted,
  store_ok, not_found, is_new, has_id, find_entry, write_entry, add_entry, update_entry,
  remove_entry, delete_entry, finish_delete, committed, commit_entry, mark_potentially_dirty,
  notify_added, notify_updated, notify_removed, notify_store_changed, is_clean, is_deleted_state,
}

module _ {T : Type 0} (I : Identified T) where
  find_entry-append :
      (i : ℤ) (xs ys : List (Entry T))
      → find_entry I i (xs ++ ys)
        ≡ elim (find_entry I i xs) [ none ↦ find_entry I i ys | some e ↦ some e ]
  find_entry-append i [] ys = refl
  find_entry-append i (x ∷ xs) ys = ground (arith, find_entry-append i xs ys)

  pub find_entry-write_entry :
      (i j : ℤ) (v : T) (state : StoreState) (es : List (Entry T))
      → I.get_id v ≡ i
      → find_entry I j (write_entry I i (λ e. record { value = v; state = state }) es)
        ≡ elim (find_entry I i es) [
          | none ↦ find_entry I j es
          | some _ ↦
              if eqb_ℤ i j then some (record { value = v; state = state }) else find_entry I j es
        ]
  unfolding write_entry
  find_entry-write_entry i j v state [] h = refl
  find_entry-write_entry i j v state (e ∷ es) h =
      ground (arith, find_entry-write_entry i j v state es h)

  find_entry-filter_if :
      (i j : ℤ) (es : List (Entry T))
      → find_entry I j (filter_if (λ e. not (has_id I i e)) es)
        ≡ (if eqb_ℤ i j then none else find_entry I j es)
  find_entry-filter_if i j [] = ground arith
  find_entry-filter_if i j (e ∷ es) = ground (arith, find_entry-filter_if i j es)

  find_entry-added :
      (w : T) (state : StoreState) (es : List (Entry T)) (j : ℤ)
      → find_entry I (I.get_id w) es ≡ none
      → find_entry I j (es ++ record { value = w; state = state } ∷ []) ≡ (
          if eqb_ℤ (I.get_id w) j
          then some (record { value = w; state = state })
          else find_entry I j es)
  find_entry-added w state [] j h = refl
  find_entry-added w state (e ∷ es) j h = ground (arith, find_entry-added w state es j)

  -- If no entry has the next identifier, an added value gets it, is found under it as a new entry,
  -- and what is found under every other one is unchanged.
  pub add_entry-find_entry :
      (v : T) (s : BaseStore T) (j : ℤ)
      → find_entry I s.next_id s.entries ≡ none
      → ((add_entry I v s).0 ≡ s.next_id)
        × (find_entry I j (add_entry I v s).1.entries ≡ (
            if eqb_ℤ s.next_id j
            then some (record { value = I.set_id v s.next_id; state = new })
            else find_entry I j s.entries))
  unfolding add_entry mark_potentially_dirty notify_added notify_store_changed
  add_entry-find_entry v s j h = (
    I.get_set v s.next_id,
    subst
        (λ n.
          find_entry I j (s.entries ++ record { value = I.set_id v s.next_id; state = new } ∷ [])
          ≡ (if eqb_ℤ n j
              then some (record { value = I.set_id v s.next_id; state = new })
              else find_entry I j s.entries))
        (I.get_set v s.next_id)
        (find_entry-added (I.set_id v s.next_id) new s.entries j (rw (I.get_set v s.next_id) h)),
  )

  -- Updating replaces what is found under the identifier of the value, changes nothing else, and
  -- reports whether there was such an entry.
  pub update_entry-find_entry :
      (v : T) (state : StoreState) (s : BaseStore T) (j : ℤ)
      → (find_entry I j (update_entry I v state s).1.entries
          ≡ elim (find_entry I (I.get_id v) s.entries) [
            | none ↦ find_entry I j s.entries
            | some _ ↦
                if eqb_ℤ (I.get_id v) j
                then some (record { value = v; state = state })
                else find_entry I j s.entries
          ])
        × ((update_entry I v state s).0
            ≡ elim (find_entry I (I.get_id v) s.entries) [ none ↦ not_found | some _ ↦ store_ok ])
  unfolding update_entry mark_potentially_dirty notify_updated notify_store_changed
  update_entry-find_entry v state s j =
      (ground (arith, find_entry-write_entry (I.get_id v) j v state s.entries refl), ground arith)

  find_entry-get_id :
      (i : ℤ) (es : List (Entry T)) (e : Entry T)
      → find_entry I i es ≡ some e
      → I.get_id e.value ≡ i
  find_entry-get_id i [] e h = cc
  find_entry-get_id i (x ∷ es) e h =
      ground (arith, find_entry-get_id i es e, eqb_ℤ→eq (I.get_id x.value) i)

  finish_delete-entries :
      (i : ℤ) (r : StoreResult × BaseStore T) → (finish_delete I i r).1.entries ≡ r.1.entries
  unfolding finish_delete mark_potentially_dirty notify_removed notify_store_changed
  finish_delete-entries i r = ground arith

  -- Deleting removes a new entry, keeps any other one as deleted, changes nothing under other
  -- identifiers, and does nothing if there is no entry.
  pub delete_entry-find_entry :
      (i j : ℤ) (s : BaseStore T)
      → find_entry I j (delete_entry I i s).1.entries ≡ elim (find_entry I i s.entries) [
        | none ↦ find_entry I j s.entries
        | some e ↦
            if eqb_ℤ i j
            then (if is_new e.state
                then none
                else some (record { value = e.value; state = deleted }))
            else find_entry I j s.entries
      ]
  unfolding delete_entry remove_entry
  delete_entry-find_entry i j s = elim (Option-cases (find_entry I i s.entries)) [
    | inl h ↦ ground (arith, h)
    | inr (e, h) ↦
        let k = find_entry-get_id i s.entries e h in
        let u = update_entry-find_entry e.value deleted s j in
        let f = finish_delete-entries i (update_entry I e.value deleted s) in
        ground (arith, h, find_entry-filter_if i j s.entries, u, f, k)
  ]

  filter_if-added :
      (i : ℤ) (w : T) (state : StoreState) (es : List (Entry T))
      → I.get_id w ≡ i
      → find_entry I i es ≡ none
      → filter_if (λ e. not (has_id I i e)) (es ++ record { value = w; state = state } ∷ []) ≡ es
  filter_if-added i w state [] k h = rw (k, eqb_ℤ-refl i) refl
  filter_if-added i w state (e ∷ es) k h = ground (arith, filter_if-added i w state es k)

  delete_entry-new :
      (i : ℤ) (s : BaseStore T) (e : Entry T)
      → find_entry I i s.entries ≡ some e
      → is_new e.state ≡ true
      → (delete_entry I i s).1.entries ≡ filter_if (λ x. not (has_id I i x)) s.entries
  unfolding delete_entry remove_entry
  delete_entry-new i s e h k = ground (arith, h, k)

  add_entry-entries :
      (v : T) (s : BaseStore T)
      → (add_entry I v s).1.entries
        ≡ s.entries ++ record { value = I.set_id v s.next_id; state = new } ∷ []
  unfolding add_entry mark_potentially_dirty notify_added notify_store_changed
  add_entry-entries v s = refl

  -- If no entry has the next identifier, adding a value and deleting it again leaves the entries as
  -- they were.
  pub delete_entry-add_entry :
      (v : T) (s : BaseStore T)
      → find_entry I s.next_id s.entries ≡ none
      → (delete_entry I (add_entry I v s).0 (add_entry I v s).1).1.entries ≡ s.entries
  delete_entry-add_entry v s h =
      let f = add_entry-find_entry v s s.next_id h in
      rw f.0 (
        delete_entry-new s.next_id (add_entry I v s).1
          (record { value = I.set_id v s.next_id; state = new })
          (f.1 ∙ rw (eqb_ℤ-refl s.next_id) refl) refl
        ∙ rw (add_entry-entries v s) (
            filter_if-added s.next_id (I.set_id v s.next_id) new s.entries (I.get_set v s.next_id)
              h))

  written :
      (i p : ℤ) (v : T) (es : List (Entry T)) (e : Entry T)
      → I.get_id v ≡ p
      → find_entry I i es ≡ some e
      → (eqb_ℤ i p ≡ true) ⊎ (find_entry I p es ≡ none)
      → find_entry I p (write_entry I i (λ x. record { value = v; state = clean }) es)
        ≡ some (record { value = v; state = clean })
  unfolding write_entry
  written i p v [] e k h c = cc
  written i p v (x ∷ es) e k h c = ground (arith, written i p v es e k)

  commit_entry-present :
      (i : ℤ) (p : Entry T) (s : BaseStore T) (e : Entry T)
      → find_entry I i s.entries ≡ some e
      → commit_entry I i p s
        ≡ Option.map
            (λ es. (store_ok, record (remapped I i p s) { entries = es }))
            (committed I p.state i p.value s.entries)
  unfolding commit_entry
  commit_entry-present i p s e h = ground (arith, h)

  abbrev after_commit : ℤ → T → StoreState → BaseStore T → BaseStore T
  after_commit i v state s = record (remapped I i (record { value = v; state = state }) s) {
    entries = write_entry I i (λ e. record { value = v; state = clean }) s.entries;
  }

  -- Committing a new or changed entry that the store holds succeeds, and the persisted value is then
  -- found, as clean, under its persisted identifier, if that is the old one or one not in use.
  pub commit_entry-find_entry :
      (i : ℤ) (v : T) (state : StoreState) (s : BaseStore T) (e : Entry T)
      → find_entry I i s.entries ≡ some e
      → (is_clean state || is_deleted_state state) ≡ false
      → (eqb_ℤ i (I.get_id v) ≡ true) ⊎ (find_entry I (I.get_id v) s.entries ≡ none)
      → (s' : BaseStore T) × (commit_entry I i (record { value = v; state = state }) s
          ≡ some (store_ok, s'))
        × (find_entry I (I.get_id v) s'.entries ≡ some (record { value = v; state = clean }))
  unfolding commit_entry committed
  commit_entry-find_entry i v clean s e h k c = cc
  commit_entry-find_entry i v deleted s e h k c = cc
  commit_entry-find_entry i v new s e h k c = (
    after_commit i v new s,
    commit_entry-present i (record { value = v; state = new }) s e h,
    written i (I.get_id v) v s.entries e refl h c,
  )
  commit_entry-find_entry i v modified s e h k c = (
    after_commit i v modified s,
    commit_entry-present i (record { value = v; state = modified }) s e h,
    written i (I.get_id v) v s.entries e refl h c,
  )
