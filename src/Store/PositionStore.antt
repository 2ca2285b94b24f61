-- ===== src/Store/PositionStore.antt =====
-- The store of positions (store/src/store/position_store.cpp).
use molar_tracker.Base.{
  ◌≡◌, refl, List, [], Bool, true, false, ◌&&◌, not, if◌then◌else◌, ok, all, map, filter_if, ◌∙◌,
}
use molar_tracker.Base.Int.{ℤ, is_negative}
use molar_tracker.Common.Container.Map.{IdMap}
use molar_tracker.Common.Container.Set.{IdSet, contains, is_empty_set}
use molar_tracker.Common.Exception.{Exception, Throws}
use molar_tracker.Finance.Account.{Account, Accounts}
use molar_tracker.Finance.Position.{Position, is_open, add_positions}
use molar_tracker.Store.BaseStore.{
  Identified, Entry, BaseStore, is_deleted_state, is_dirty, add_entry, add_clean_entries,
  clear_entries,
}
use molar_tracker.Store.Loop.{Failure, Outcome, after_commit, and_next, for_each_entry, view, walk}
use molar_tracker.Store.Saving.{
  Writing, WritesRows, with_id, store_row, save, savable, save-walk, finished,
}
use molar_tracker.Store.Saving.Clean.{with_id-is_row, view-finished, is_dirty-walk}

-- `getId` and `setId`
abbrev pub positions : Identified Position
positions = record {
  get_id = λ p. p.id;
  set_id = λ p i. record p { id = i };
  get_set = λ p i. refl;
}

-- `IPositionService`; creating a row may throw, and the database gives a new row an identifier that is
-- not negative.
pub record PositionService (W : Type 0) : Type 0 where
  pub create_position : Position → W → (Throws ℤ × W)
  pub read_positions : IdSet → W → List Position
  pub read_open_positions : IdSet → W → List Position
  pub create-is_row :
      (p : Position) (w : W) (i : ℤ) → (create_position p w).0 ≡ ok i → is_negative i ≡ false

-- The values of the entries that pass a test, their identifiers, and the rows that have none of those.
abbrev values_where : (Entry Position → Bool) → BaseStore Position → List Position
values_where test s = map (λ e. e.value) (filter_if test s.entries)

abbrev missing_in : List Position → List Position → List Position
missing_in known rows = filter_if (λ p. not (contains (map (λ k. k.id) known) p.id)) rows

-- `createPosition`
unfoldable pub create_position : Position → BaseStore Position → (ℤ × BaseStore Position)
create_position p s = add_entry positions p s

module _ {W : Type 0} (D : PositionService W) where
  -- `getAllPositions`: the identifiers are those of deleted entries as well.
  unfoldable pub get_all_positions : Accounts → BaseStore Position → W → IdMap Position
  get_all_positions accounts s w =
      let ids = map (λ (a : Account). a.id) accounts in
      let kept = values_where (λ e. not (is_deleted_state e.state)) s in
      if is_empty_set ids
      then []
      else add_positions (add_positions [] kept)
          (missing_in (values_where (λ e. true) s) (D.read_positions ids w))

  -- `getOpenPositions`: the identifiers are those of open positions, deleted ones as well.
  unfoldable pub read_all_open : Accounts → BaseStore Position → W → IdMap Position
  read_all_open accounts s w =
      let ids = map (λ (a : Account). a.id) accounts in
      let kept = values_where (λ e. is_open e.value && not (is_deleted_state e.state)) s in
      if is_empty_set ids
      then []
      else add_positions (add_positions [] kept)
          (missing_in (values_where (λ e. is_open e.value) s) (D.read_open_positions ids w))

  -- The result of `_commitEntry` is not used.
  abbrev writing : Writing Position W
  writing = record {
    create = λ p w. with_id positions p (D.create_position p w);
    proceed = λ old new. after_commit;
    refused = Failure.thrown Exception.not_yet_implemented;
  }

  -- `commit`
  unfoldable pub commit_positions : BaseStore Position → W → Outcome Position W
  commit_positions s w = and_next (for_each_entry (save positions writing) s w) finished

  -- `reload`
  unfoldable pub reload_positions : Accounts → BaseStore Position → W → BaseStore Position
  reload_positions accounts s w =
      let ids = map (λ (a : Account). a.id) accounts in
      if is_empty_set ids
      then clear_entries s
      else add_clean_entries (D.read_open_positions ids w) (clear_entries s)

  -- If every new position has a negative identifier and every clean one has one that is not negative,
  -- then a commit creates the new positions in the database one after the other and gives them the
  -- identifiers of their rows, up to the first one that is refused or throws; the entries, the
  -- database and the exception are those of this pass over the list. If the commit succeeds, no
  -- position has changes that are not saved.
  pub commit_positions-walk :
      (s : BaseStore Position) (w : W)
      → all (savable positions) s.entries ≡ true
      → (view (commit_positions s w)
          ≡ walk
              (store_row
                (λ p v. with_id positions p (D.create_position p v))
                (λ old new v. v)
                (Failure.thrown Exception.not_yet_implemented))
              s.entries
              w)
        × ((commit_positions s w).0 ≡ ok tt → is_dirty (commit_positions s w).1 ≡ false)
  unfolding commit_positions
  commit_positions-walk s w h =
      let rows : WritesRows positions writing (λ old new v. v) = record {
        is_row =
            λ p x v. with_id-is_row positions p x (D.create_position p v) (D.create-is_row p v);
        goes_on = λ p x t s v. refl;
      } in
      let passed =
        view-finished (for_each_entry (save positions writing) s w)
        ∙ save-walk positions writing (λ old new v. v) rows s w h in
      (
        passed,
        is_dirty-walk (commit_positions s w) writing.create (λ old new v. v) writing.refused
            s.entries w passed,
      )
