-- ===== src/Examples/WatchlistStore.antt =====
-- The theorems on the store of watch lists at concrete stores
-- (store/src/store/watchlist_store.cpp).
use molar_tracker.Store.Loop.{Failure, view, walk}
use molar_tracker.Common.Exception.{Exception, ok_eq}
use molar_tracker.Base.{◌≡◌, refl, List, [], ◌∷◌, ◌++◌, true, false, ok, length, sym, ap}
use molar_tracker.Base.Int.{pos, negsuc, is_negative}
use molar_tracker.Base.Text.{codes}
use molar_tracker.Store.BaseStore.{StoreState, BaseStore}
use molar_tracker.Store.Saving.{savable, with_id, store_row}
use molar_tracker.Store.WatchlistStore.{
  Watchlist, WatchlistService, get_all_watchlists, refresh, commit_watchlists,
  commit_watchlists-refresh, watchlists,
}

-- A database whose rows are the watch lists, with the identifiers from 0 on.
abbrev rows : WatchlistService (List Watchlist)
rows = record {
  insert_watchlist = λ name w.
      let i = pos (length w) in
      (ok i, w ++ record { id = i; name = name; created_at = pos 0; symbols = [] } ∷ []);
  read_watchlists = λ w. w;
  insert-is_row = λ name w i h. ap is_negative (sym (ok_eq h));
}

abbrev tech : Watchlist
tech = record { id = pos 0; name = codes "tech"; created_at = pos 1; symbols = codes "AAPL" ∷ [] }

-- A saved watch list and a new one.
abbrev two_watchlists : BaseStore Watchlist
two_watchlists = record {
  entries =
      record { value = tech; state = StoreState.clean }
      ∷ record {
        value = record { id = negsuc 1; name = codes "energy"; created_at = pos 3; symbols = [] };
        state = StoreState.new;
      }
      ∷ [];
  is_potentially_dirty = true;
  id_remap = [];
  updated = [];
  added = [];
  removed = [];
  next_id = negsuc 2;
  already_notified = false;
  full_cache = true;
  sent = [];
}

commit_watchlists-refresh_example :
    (view (commit_watchlists rows two_watchlists (tech ∷ []))
      ≡ walk
          (store_row
            (λ l v. with_id watchlists l (rows.insert_watchlist l.name v))
            (λ old new v. v)
            (Failure.thrown Exception.watchlist_store))
          two_watchlists.entries
          (tech ∷ []))
    × ((commit_watchlists rows two_watchlists (tech ∷ [])).0 ≡ ok tt
        → get_all_watchlists (
            refresh rows
              (commit_watchlists rows two_watchlists (tech ∷ [])).1
              (commit_watchlists rows two_watchlists (tech ∷ [])).2)
          ≡ (commit_watchlists rows two_watchlists (tech ∷ [])).2)
unfolding savable
commit_watchlists-refresh_example = commit_watchlists-refresh rows two_watchlists (tech ∷ []) refl
