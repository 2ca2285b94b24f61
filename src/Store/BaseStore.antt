-- ===== src/Store/BaseStore.antt =====
-- The base store (store/src/store/base/base_store.tpp and base_store_notifications.tpp): entries with
-- a state, identifiers for new values, and the notifications that are sent.
use molar_tracker.Base.{
  ◌≡◌, Option, none, some, List, [], ◌∷◌, ◌++◌, Bool, true, false, not, if◌then◌else◌, any, all,
  ◌&&◌, find_if, filter_if, map,
}
use molar_tracker.Base.Int.{ℤ, pos, negsuc, ◌-ℤ◌, eqb_ℤ}
use mathlib.Core.Option

pub data StoreState : Type 0 where
  clean new modified deleted : StoreState

pub data StoreResult : Type 0 where
  store_ok not_found : StoreResult

-- `getId` and `setId` of the values.
pub record Identified (T : Type 0) : Type 0 where
  pub get_id : T → ℤ
  pub set_id : T → ℤ → T
  pub get_set : (v : T) (i : ℤ) → get_id (set_id v i) ≡ i

pub record Entry (T : Type 0) : Type 0 where
  pub value : T
  pub state : StoreState

-- What subscribers are told.
pub data Notification (T : Type 0) : Type 0 where
  dirty_changed : Bool → Notification T
  items_added : List T → Notification T
  items_updated : List T → Notification T
  items_removed : List ℤ → Notification T
  store_changed : Notification T

-- `BaseStore`, with the notifications sent so far.
pub record BaseStore (T : Type 0) : Type 0 where
  pub entries : List (Entry T)
  pub is_potentially_dirty : Bool
  pub id_remap : List (ℤ × ℤ)
  pub updated : List T
  pub added : List T
  pub removed : List ℤ
  pub next_id : ℤ
  pub already_notified : Bool
  pub full_cache : Bool
  pub sent : List (Notification T)

abbrev pub is_clean : StoreState → Bool
is_clean clean = true
is_clean _ = false

abbrev pub is_new : StoreState → Bool
is_new new = true
is_new _ = false

abbrev pub is_deleted_state : StoreState → Bool
is_deleted_state deleted = true
is_deleted_state _ = false

module _ {T : Type 0} where
  pub empty_store : Bool → BaseStore T
  empty_store full_cache = record {
    entries = [];
    is_potentially_dirty = false;
    id_remap = [];
    updated = [];
    added = [];
    removed = [];
    next_id = negsuc 1;
    already_notified = false;
    full_cache = full_cache;
    sent = [];
  }

  unfoldable pub is_dirty : BaseStore T → Bool
  is_dirty s = any (λ e. not (is_clean e.state)) s.entries

  unfoldable pub all_dirty : BaseStore T → Bool
  all_dirty s = all (λ e. not (is_clean e.state)) s.entries

  abbrev send : Notification T → BaseStore T → BaseStore T
  send n s = record s { sent = s.sent ++ n ∷ [] }

  unfoldable pub mark_potentially_dirty : BaseStore T → BaseStore T
  mark_potentially_dirty s = send (dirty_changed true) (record s { is_potentially_dirty = true })

  unfoldable pub clear_potentially_dirty : BaseStore T → BaseStore T
  clear_potentially_dirty s = send (dirty_changed false) (record s { is_potentially_dirty = false })

  -- `checkAlreadyNotified` sends the notification once until the flag is set back.
  unfoldable pub notify_store_changed : Bool → BaseStore T → BaseStore T
  notify_store_changed true s =
      if s.already_notified then s else record (send store_changed s) { already_notified = true }
  notify_store_changed false s = record (send store_changed s) { already_notified = false }

  unfoldable pub notify_updated : Bool → BaseStore T → BaseStore T
  notify_updated check s = record (notify_store_changed check (send (items_updated s.updated) s)) {
    updated = [];
  }

  unfoldable pub notify_added : Bool → BaseStore T → BaseStore T
  notify_added check s = record (notify_store_changed check (send (items_added s.added) s)) {
    added = [];
  }

  unfoldable pub notify_removed : Bool → BaseStore T → BaseStore T
  notify_removed check s = record (notify_store_changed check (send (items_removed s.removed) s)) {
    removed = [];
  }

  unfoldable pub notify_on_commit : BaseStore T → BaseStore T
  notify_on_commit s = record (notify_updated true (notify_removed true (notify_added true s))) {
    already_notified = false;
  }

  unfoldable pub add_clean_entries : List T → BaseStore T → BaseStore T
  add_clean_entries vs s =
      notify_store_changed false
        (record s { entries = s.entries ++ map (λ v. record { value = v; state = clean }) vs })

  unfoldable pub clear_entries : BaseStore T → BaseStore T
  clear_entries s = elim s.entries [
    | [] ↦ s
    | e ∷ es ↦ record (mark_potentially_dirty s) { entries = [] }
  ]

module _ {T : Type 0} (I : Identified T) where
  abbrev pub has_id : ℤ → Entry T → Bool
  has_id i e = eqb_ℤ (I.get_id e.value) i

  -- `_findEntry`
  abbrev pub find_entry : ℤ → List (Entry T) → Option (Entry T)
  find_entry i es = find_if (has_id i) es

  -- A write through the pointer that `_findEntry` returns.
  unfoldable pub write_entry : ℤ → (Entry T → Entry T) → List (Entry T) → List (Entry T)
  write_entry i f [] = []
  write_entry i f (e ∷ es) =
      let rest = write_entry i f es in if has_id i e then f e ∷ es else e ∷ rest

  unfoldable pub is_deleted : ℤ → BaseStore T → Bool
  is_deleted i s = elim (find_entry i s.entries) [
    | none ↦ false
    | some e ↦ is_deleted_state e.state
  ]

  unfoldable pub add_entry : T → BaseStore T → (ℤ × BaseStore T)
  add_entry v s =
      let s₁ = mark_potentially_dirty s in
      let w = I.set_id v s₁.next_id in
      let s₂ = record s₁ {
        next_id = s₁.next_id -ℤ pos 1;
        entries = s₁.entries ++ record { value = w; state = new } ∷ [];
        added = s₁.added ++ w ∷ [];
      } in
      (I.get_id w, notify_added false s₂)

  unfoldable pub update_entry : T → StoreState → BaseStore T → (StoreResult × BaseStore T)
  update_entry v state s =
      let s₁ = if is_clean state then s else mark_potentially_dirty s in
      elim (find_entry (I.get_id v) s₁.entries) [
        | none ↦ (not_found, s₁)
        | some _ ↦
            let s₂ = record s₁ {
              entries =
                  write_entry (I.get_id v) (λ e. record { value = v; state = state }) s₁.entries;
              updated = s₁.updated ++ v ∷ [];
            } in
            (store_ok, notify_updated false s₂)
      ]

  unfoldable pub remove_entry : ℤ → BaseStore T → (StoreResult × BaseStore T)
  remove_entry i s = elim (find_entry i s.entries) [
    | none ↦ (not_found, s)
    | some _ ↦ (store_ok, record s { entries = filter_if (λ e. not (has_id i e)) s.entries })
  ]

  -- The end of `_deleteEntry`, after the update.
  unfoldable pub finish_delete : ℤ → (StoreResult × BaseStore T) → (StoreResult × BaseStore T)
  finish_delete i (not_found, s) = (not_found, s)
  finish_delete i (store_ok, s) = (
    store_ok,
    mark_potentially_dirty (notify_removed false (record s { removed = s.removed ++ i ∷ [] })),
  )

  unfoldable pub delete_entry : ℤ → BaseStore T → (StoreResult × BaseStore T)
  delete_entry i s = elim (find_entry i s.entries) [
    | none ↦ (not_found, s)
    | some e ↦
        if is_new e.state
        then remove_entry i s
        else finish_delete i (update_entry e.value deleted s)
  ]

  -- What a commit with the state `deleted` does to the entries: those with the persisted identifier
  -- are erased, and then the entry that was found is marked clean. `none` is a write through a
  -- pointer that the erasure invalidated: one at or behind the first erased entry.
  unfoldable pub erase_and_mark : (found erased : ℤ) → List (Entry T) → Option (List (Entry T))
  erase_and_mark i p [] = some []
  erase_and_mark i p (e ∷ es) =
      let rest = erase_and_mark i p es in
      if has_id p e
      then none
      else if has_id i e
      then some (record e { state = clean } ∷ filter_if (λ x. not (has_id p x)) es)
      else Option.map (◌∷◌ e) rest

  -- `_idRemap[tempId] = id`
  abbrev put : ℤ → ℤ → List (ℤ × ℤ) → List (ℤ × ℤ)
  put k v m = (k, v) ∷ filter_if (λ p. not (eqb_ℤ p.0 k)) m

  abbrev pub remapped : ℤ → Entry T → BaseStore T → BaseStore T
  remapped i p s =
      if not (eqb_ℤ i (I.get_id p.value)) && is_new p.state
      then record s { id_remap = put i (I.get_id p.value) s.id_remap }
      else s

  -- The entries after a commit, by the state of the persisted entry.
  unfoldable pub committed : StoreState → ℤ → T → List (Entry T) → Option (List (Entry T))
  committed clean i v es = some (write_entry i (λ e. record e { state = clean }) es)
  committed new i v es = some (write_entry i (λ e. record { value = v; state = clean }) es)
  committed modified i v es = some (write_entry i (λ e. record { value = v; state = clean }) es)
  committed deleted i v es = erase_and_mark i (I.get_id v) es

  unfoldable pub commit_entry : ℤ → Entry T → BaseStore T → Option (StoreResult × BaseStore T)
  commit_entry i p s = elim (find_entry i s.entries) [
    | none ↦ some (not_found, s)
    | some _ ↦
        Option.map (λ es. (store_ok, record (remapped i p s) { entries = es }))
          (committed p.state i p.value s.entries)
  ]
