-- ===== src/Examples/Store.antt =====
-- Witnesses for the base store: values are an identifier and a payload.
use molar_tracker.Base.{ℕ, ◌≡◌, refl, some, [], ◌∷◌, true, false, inr, arith}
use molar_tracker.Base.Int.{ℤ, pos, negsuc}
use molar_tracker.Store.BaseStore.{
  Identified, BaseStore, clean, new, modified, deleted, store_ok, find_entry, add_entry,
  update_entry, delete_entry, commit_entry,
}
use molar_tracker.Store.Lookup.{
  add_entry-find_entry, delete_entry-find_entry, update_entry-find_entry, commit_entry-find_entry,
}
use molar_tracker.Store.Fresh.{IsFresh, operations-IsFresh}

abbrev Row : Type 0
Row = ℤ × ℕ

abbrev rows : Identified Row
rows = record { get_id = λ r. r.0; set_id = λ r i. (i, r.1); get_set = λ r i. refl }

-- A row from the database, and one that is new.
abbrev two_rows : BaseStore Row
two_rows = record {
  entries =
      record { value = (pos 4, 7); state = clean }
      ∷ record { value = (negsuc 1, 8); state = new }
      ∷ [];
  is_potentially_dirty = true;
  id_remap = [];
  updated = [];
  added = [];
  removed = [];
  next_id = negsuc 2;
  already_notified = false;
  full_cache = false;
  sent = [];
}

two_rows-IsFresh : IsFresh rows two_rows
two_rows-IsFresh j h = ground (arith, h)

add_entry-find_entry_example :
    ((add_entry rows (pos 0, 9) two_rows).0 ≡ negsuc 2)
    × (find_entry rows (pos 4) (add_entry rows (pos 0, 9) two_rows).1.entries
        ≡ some (record { value = (pos 4, 7); state = clean }))
add_entry-find_entry_example = add_entry-find_entry rows (pos 0, 9) two_rows (pos 4) refl

update_entry-find_entry_example :
    (find_entry rows (pos 4) (update_entry rows (pos 4, 1) modified two_rows).1.entries
      ≡ some (record { value = (pos 4, 1); state = modified }))
    × ((update_entry rows (pos 4, 1) modified two_rows).0 ≡ store_ok)
update_entry-find_entry_example = update_entry-find_entry rows (pos 4, 1) modified two_rows (pos 4)

delete_entry-find_entry_example :
    find_entry rows (pos 4) (delete_entry rows (pos 4) two_rows).1.entries
    ≡ some (record { value = (pos 4, 7); state = deleted })
delete_entry-find_entry_example = delete_entry-find_entry rows (pos 4) (pos 4) two_rows

commit_entry-find_entry_example :
    (s' : BaseStore Row) × (commit_entry rows
        (negsuc 1)
        (record { value = (pos 5, 8); state = new })
        two_rows
      ≡ some (store_ok, s'))
    × (find_entry rows (pos 5) s'.entries ≡ some (record { value = (pos 5, 8); state = clean }))
commit_entry-find_entry_example =
    commit_entry-find_entry rows (negsuc 1) (pos 5, 8) new two_rows
      (record { value = (negsuc 1, 8); state = new }) refl refl (inr refl)

operations-IsFresh_example :
    IsFresh rows (add_entry rows (pos 4, 9) two_rows).1
    × IsFresh rows (update_entry rows (pos 4, 9) modified two_rows).1
    × IsFresh rows (delete_entry rows (pos 4) two_rows).1
operations-IsFresh_example =
    operations-IsFresh rows (pos 4, 9) modified (pos 4) two_rows two_rows-IsFresh
