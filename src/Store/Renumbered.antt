-- ===== src/Store/Renumbered.antt =====
-- The map from old to new identifiers of instruments that the stores of stocks and of options keep while
-- they commit (store/src/store/stock_store.cpp, option_store.cpp).
use molar_tracker.Base.{Option, none, some, ◌∷◌, not, if◌then◌else◌, ok, err, filter_if}
use molar_tracker.Base.Int.{ℤ, eqb_ℤ}
use molar_tracker.Common.Container.Map.{IdMap}
use molar_tracker.Common.Exception.{Exception}
use molar_tracker.Store.BaseStore.{StoreResult, BaseStore}
use molar_tracker.Store.Loop.{Failure, Outcome}

-- `_instrumentIdMap[oldId] = id`
abbrev put : ℤ → ℤ → IdMap ℤ → IdMap ℤ
put k v m = (k, v) ∷ filter_if (λ p. not (eqb_ℤ p.0 k)) m

-- The map after a round, beside the database.
abbrev pub keep_number : {W : Type 0} → (old new : ℤ) → W × IdMap ℤ → W × IdMap ℤ
keep_number old new v = (v.0, if not (eqb_ℤ old new) then put old new v.1 else v.1)

-- What follows `_commitEntry` in a round: any result but `Ok` throws, and a new identifier is kept.
abbrev pub renumbered :
    {T W : Type 0}
    → Option (StoreResult × BaseStore T)
    → BaseStore T
    → W × IdMap ℤ
    → (old new : ℤ) → Outcome T (W × IdMap ℤ)
renumbered none s v old new = (err Failure.invalid_write, s, v)
renumbered (some (StoreResult.not_found, s₁)) s v old new =
    (err (Failure.thrown Exception.runtime_error), s₁, v)
renumbered (some (StoreResult.store_ok, s₁)) s v old new = (ok tt, s₁, keep_number old new v)
