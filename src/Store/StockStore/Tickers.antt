-- ===== src/Store/StockStore/Tickers.antt =====
-- No two stocks of the store have one ticker (store/src/store/stock_store.cpp).
use molar_tracker.Base.{
  ◌≡◌, refl, List, [], ◌∷◌, ◌++◌, Bool, true, false, ◌&&◌, ◌||◌, not, any, arith, Bool-cases, inl,
  inr,
}
use molar_tracker.Base.Int.{ℤ}
use molar_tracker.Base.Text.{Text}
use molar_tracker.Store.BaseStore.{
  StoreState, Entry, is_deleted_state, BaseStore, add_entry, mark_potentially_dirty, notify_added,
  notify_store_changed,
}
use molar_tracker.Store.StockStore.{
  Stock, StockStoreResult, StockService, stock_exists, add_stock, has_ticker,
}

-- No two entries have one ticker, deleted ones included.
abbrev pub unique_tickers : List (Entry Stock) → Bool
unique_tickers [] = true
unique_tickers (e ∷ es) = not (any (λ d. has_ticker d.value.ticker e.value) es) && unique_tickers es

any-append_one :
    (f : Entry Stock → Bool) (es : List (Entry Stock)) (d : Entry Stock)
    → any f (es ++ d ∷ []) ≡ (any f es || f d)
any-append_one f [] d = ground arith
any-append_one f (e ∷ es) d = ground (arith, any-append_one f es d)

unique_tickers-append :
    (es : List (Entry Stock)) (d : Entry Stock)
    → any (λ e. has_ticker d.value.ticker e.value) es ≡ false
    → unique_tickers es ≡ true
    → unique_tickers (es ++ d ∷ []) ≡ true
unique_tickers-append [] d h u = refl
unique_tickers-append (e ∷ es) d h u = ground (
  arith,
  any-append_one (λ x. has_ticker x.value.ticker e.value) es d,
  unique_tickers-append es d,
)

any-included :
    (t : Text) (es : List (Entry Stock))
    → any (λ e. has_ticker t e.value && (true || not (is_deleted_state e.state))) es
      ≡ any (λ e. has_ticker t e.value) es
any-included t [] = refl
any-included t (e ∷ es) = ground (arith, any-included t es)

module _ {W : Type 0} (D : StockService W) where
  stock_exists-entries :
      (t : Text) (s : BaseStore Stock) (w : W)
      → any (λ e. has_ticker t e.value) s.entries ≡ true
      → stock_exists D t true s w ≡ true
  unfolding stock_exists
  stock_exists-entries t s w h = ground (arith, any-included t s.entries, h)

  add_stock-entries :
      (stock : Stock) (next : ℤ) (s : BaseStore Stock) (w : W)
      → stock_exists D stock.ticker true s w ≡ false
      → (d : Entry Stock) × (d.value.ticker ≡ stock.ticker)
        × ((add_stock D stock next s w).2.entries ≡ s.entries ++ d ∷ [])
  unfolding add_stock add_entry mark_potentially_dirty notify_added notify_store_changed
  add_stock-entries stock next s w e = (
    record {
      value = record stock { instrument_id = next; id = s.next_id };
      state = StoreState.new;
    },
    refl,
    rw (add_stock, e) refl,
  )

  -- Adding a stock whose ticker an entry has, a deleted one included, reports that it exists and changes
  -- nothing; and whatever is added, no two entries have one ticker afterwards if that was so before.
  pub add_stock-unique_tickers :
      (stock : Stock) (next : ℤ) (s : BaseStore Stock) (w : W)
      → unique_tickers s.entries ≡ true
      → (unique_tickers (add_stock D stock next s w).2.entries ≡ true)
        × (any (λ e. has_ticker stock.ticker e.value) s.entries ≡ true
            → add_stock D stock next s w ≡ (StockStoreResult.stock_already_exists, next, s))
  unfolding add_stock
  add_stock-unique_tickers stock next s w u = (
    elim (Bool-cases (stock_exists D stock.ticker true s w)) [
      | inl e ↦ rw (add_stock, e) u
      | inr e ↦
          let a = add_stock-entries stock next s w e in
          let absent : any (λ x. has_ticker a.0.value.ticker x.value) s.entries ≡ false =
            rw (a.1) (ground (arith, e, stock_exists-entries stock.ticker s w)) in
          rw (a.2) (unique_tickers-append s.entries a.0 absent u)
    ],
    λ h. rw (add_stock, stock_exists-entries stock.ticker s w h) refl,
  )
