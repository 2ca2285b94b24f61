-- ===== src/Store/WatchlistStore.antt =====
-- The store of watch lists (store/src/store/watchlist_store.cpp, finance/src/finance/watchlist.cpp).
use molar_tracker.Base.{
  ◌≡◌, refl, ap, ◌++◌, Option, List, [], ◌∷◌, true, false, not, if◌then◌else◌, ok, err, all, map,
  filter_if, ◌∙◌,
}
use molar_tracker.Base.Int.{ℤ, is_negative}
use molar_tracker.Base.Text.{Text}
use molar_tracker.Common.Exception.{Exception, Throws}
use molar_tracker.Common.Id.{invalid_id}
use mathlib.Core.Option
use molar_tracker.Store.BaseStore.{
  StoreState, mark_potentially_dirty, notify_store_changed, Identified, Entry, BaseStore,
  is_deleted_state, is_dirty, find_entry, add_entry, add_clean_entries, clear_entries,
}
use molar_tracker.Store.Loop.{Failure, Outcome, settled, and_next, for_each_entry, view, walk}
use molar_tracker.Store.Saving.{
  Writing, WritesRows, with_id, store_row, save, savable, save-walk, finished,
}
use molar_tracker.Store.Saving.Clean.{with_id-is_row, view-finished, is_dirty-walk}

pub record Watchlist : Type 0 where
  pub id : ℤ
  pub name : Text
  pub created_at : ℤ
  pub symbols : List Text

-- `getId` and `setId`
abbrev pub watchlists : Identified Watchlist
watchlists = record {
  get_id = λ l. l.id;
  set_id = λ l i. record l { id = i };
  get_set = λ l i. refl;
}

-- The methods of `IWatchlistService` that the store calls; inserting a row may throw, and the database
-- gives a new row an identifier that is not negative.
pub record WatchlistService (W : Type 0) : Type 0 where
  pub insert_watchlist : Text → W → (Throws ℤ × W)
  pub read_watchlists : W → List Watchlist
  pub insert-is_row :
      (name : Text) (w : W) (i : ℤ) → (insert_watchlist name w).0 ≡ ok i → is_negative i ≡ false

-- `createWatchlist`, at the time `now` of the clock.
unfoldable pub create_watchlist : Text → (now : ℤ) → BaseStore Watchlist → (ℤ × BaseStore Watchlist)
create_watchlist name now =
    add_entry watchlists (record { id = invalid_id; name = name; created_at = now; symbols = [] })

-- `getWatchlist`, which finds deleted entries as well.
unfoldable pub get_watchlist : ℤ → BaseStore Watchlist → Option Watchlist
get_watchlist i s = Option.map (λ e. e.value) (find_entry watchlists i s.entries)

-- `getAllWatchlists`
unfoldable pub get_all_watchlists : BaseStore Watchlist → List Watchlist
get_all_watchlists s =
    map (λ e. e.value) (filter_if (λ e. not (is_deleted_state e.state)) s.entries)

module _ {W : Type 0} (D : WatchlistService W) where
  -- `_refresh`
  unfoldable pub refresh : BaseStore Watchlist → W → BaseStore Watchlist
  refresh s w = if is_dirty s then s else add_clean_entries (D.read_watchlists w) (clear_entries s)

  -- `reload`
  unfoldable pub reload_watchlists : BaseStore Watchlist → W → BaseStore Watchlist
  reload_watchlists s w = refresh (clear_entries s) w

  -- The creation in the database takes the name alone; an entry that is not found throws.
  abbrev writing : Writing Watchlist W
  writing = record {
    create = λ l w. with_id watchlists l (D.insert_watchlist l.name w);
    proceed = λ old new. settled (err (Failure.thrown Exception.watchlist_store));
    refused = Failure.thrown Exception.watchlist_store;
  }

  -- `commit`, which notifies also if nothing was to be saved.
  unfoldable pub commit_watchlists : BaseStore Watchlist → W → Outcome Watchlist W
  commit_watchlists s w = and_next (for_each_entry (save watchlists writing) s w) finished

  clear_entries-entries : (s : BaseStore Watchlist) → (clear_entries s).entries ≡ []
  unfolding clear_entries mark_potentially_dirty
  clear_entries-entries s = go s.entries refl
    where
      go : (es : List (Entry Watchlist)) → s.entries ≡ es → (clear_entries s).entries ≡ []
      go [] h = rw h refl
      go (e ∷ es) h = rw h refl

  values_of_clean :
      (ls : List Watchlist)
      → map
          (λ (e : Entry Watchlist). e.value)
          (filter_if
            (λ e. not (is_deleted_state e.state))
            (map (λ l. record { value = l; state = StoreState.clean }) ls))
        ≡ ls
  values_of_clean [] = refl
  values_of_clean (l ∷ ls) = ap (l ∷◌) (values_of_clean ls)

  added-entries :
      (s : BaseStore Watchlist) (ls : List Watchlist)
      → (add_clean_entries ls s).entries
        ≡ s.entries ++ map (λ l. record { value = l; state = StoreState.clean }) ls
  unfolding add_clean_entries notify_store_changed
  added-entries s ls = refl

  pub refresh-get_all :
      (s : BaseStore Watchlist) (w : W)
      → is_dirty s ≡ false
      → get_all_watchlists (refresh s w) ≡ D.read_watchlists w
  unfolding get_all_watchlists refresh
  refresh-get_all s w h =
      rw
        (
          h,
          added-entries (clear_entries s) (D.read_watchlists w),
          clear_entries-entries s,
          values_of_clean (D.read_watchlists w),
        )
        refl

  -- The watch lists after a reload are those of the database, whatever the store had.
  pub reload_watchlists-get_all :
      (s : BaseStore Watchlist) (w : W)
      → get_all_watchlists (reload_watchlists s w) ≡ D.read_watchlists w
  unfolding reload_watchlists is_dirty
  reload_watchlists-get_all s w =
      refresh-get_all (clear_entries s) w (rw (is_dirty, clear_entries-entries s) refl)

  -- If every new watch list has a negative identifier and every clean one has one that is not negative,
  -- then a commit inserts the names of the new watch lists in the database one after the other and
  -- gives the lists the identifiers of their rows, up to the first one that is refused or throws;
  -- the entries, the database and the exception are those of this pass over the list. If the commit
  -- succeeds, refreshing the store afterwards gives the watch lists of that database.
  pub commit_watchlists-refresh :
      (s : BaseStore Watchlist) (w : W)
      → all (savable watchlists) s.entries ≡ true
      → (view (commit_watchlists s w)
          ≡ walk
              (store_row
                (λ l v. with_id watchlists l (D.insert_watchlist l.name v))
                (λ old new v. v)
                (Failure.thrown Exception.watchlist_store))
              s.entries
              w)
        × ((commit_watchlists s w).0 ≡ ok tt
            → get_all_watchlists (refresh (commit_watchlists s w).1 (commit_watchlists s w).2)
              ≡ D.read_watchlists (commit_watchlists s w).2)
  unfolding commit_watchlists
  commit_watchlists-refresh s w h =
      let rows : WritesRows watchlists writing (λ old new v. v) = record {
        is_row = λ l x v.
            with_id-is_row watchlists l x (D.insert_watchlist l.name v) (D.insert-is_row l.name v);
        goes_on = λ l x t s v. refl;
      } in
      let passed =
        view-finished (for_each_entry (save watchlists writing) s w)
        ∙ save-walk watchlists writing (λ old new v. v) rows s w h in
      (
        passed,
        λ e. refresh-get_all (commit_watchlists s w).1 (commit_watchlists s w).2 (
            is_dirty-walk (commit_watchlists s w) writing.create (λ old new v. v) writing.refused
              s.entries w passed e),
      )
