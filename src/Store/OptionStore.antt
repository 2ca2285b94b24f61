-- ===== src/Store/OptionStore.antt =====
-- The store of options (store/src/store/option_store.cpp, finance/src/finance/instrument/option.cpp).
pub mod Remap
pub mod Commit
use molar_tracker.Base.{
  ◌≡◌, refl, Option, none, some, List, [], ◌∷◌, Bool, true, false, ◌&&◌, not, if◌then◌else◌, ok,
  err, any, map, filter_if,
}
use molar_tracker.Base.Int.{ℤ, eqb_ℤ}
use molar_tracker.Common.Cash.{Cash}
use molar_tracker.Common.Container.Map.{IdMap, at, get_keys, add_unchecked, get_values, has_key}
use molar_tracker.Common.Container.Set.{IdSet, contains}
use molar_tracker.Common.Exception.{Exception, Throws}
use molar_tracker.Finance.Pnl.State.{OptionType}
use molar_tracker.Store.BaseStore.{
  StoreState, Identified, Entry, BaseStore, is_new, is_deleted_state, is_dirty, update_entry,
  add_clean_entries, clear_entries, commit_entry, notify_on_commit,
}
use molar_tracker.Store.Loop.{Failure, Outcome, and_next, for_each_entry}
use molar_tracker.Store.Saving.{Writing, save, finished}
use molar_tracker.Store.Renumbered.{renumbered}
use molar_tracker.Store.StockStore.{Stock}

-- `finance::Option`
pub record FinanceOption : Type 0 where
  pub id : ℤ
  pub instrument_id : ℤ
  pub underlying : Stock
  pub option_type : OptionType
  pub strike_price : Cash
  pub expiration_date : ℤ
  pub contract_size : ℤ

-- `getId` and `setId`
abbrev pub options : Identified FinanceOption
options = record { get_id = λ o. o.id; set_id = λ o i. record o { id = i }; get_set = λ o i. refl }

abbrev pub has_underlying : FinanceOption → ℤ → Bool
has_underlying o i = eqb_ℤ o.underlying.instrument_id i

unfoldable pub update_underlying : FinanceOption → ℤ → FinanceOption
update_underlying o i = record o { underlying = record (o.underlying) { instrument_id = i } }

-- What `addOption` of the service returns.
pub record OptionInsertionResult : Type 0 where
  pub option_id : ℤ
  pub instrument_id : ℤ

-- The methods for options of `IInstrumentService` that are used here.
pub record OptionService (W : Type 0) : Type 0 where
  pub insert_option : FinanceOption → W → (Throws OptionInsertionResult × W)
  pub read_options : W → List FinanceOption
  pub read_options_of : IdSet → W → List FinanceOption

-- The constructor of `Options` and `addUnchecked`, which keep the first option with an identifier.
unfoldable pub add_options : IdMap FinanceOption → List FinanceOption → IdMap FinanceOption
add_options m [] = m
add_options m (o ∷ os) = add_options (add_unchecked m o.id o) os

-- A round of `_onInstrumentIdRemap`.
module _ {W : Type 0} where
  unfoldable pub remap_underlying :
      IdMap ℤ → Entry FinanceOption → BaseStore FinanceOption → W → Outcome FinanceOption W
  remap_underlying m e s w =
      if not (is_new e.state)
      then (if any (has_underlying e.value) (get_keys m)
          then (err (Failure.thrown Exception.runtime_error), s, w)
          else (ok tt, s, w))
      else elim (at m e.value.underlying.instrument_id) [
        | none ↦ (ok tt, s, w)
        | some i ↦
            (ok tt, (update_entry options (update_underlying e.value i) StoreState.new s).1, w)
      ]

-- `getOption` among the options of one instrument.
abbrev only : List FinanceOption → Throws (Option FinanceOption)
only [] = ok none
only (o ∷ []) = ok (some o)
only (o ∷ p ∷ os) = err Exception.runtime_error

-- A value with the identifiers that it was given.
abbrev pub numbered :
    {W : Type 0}
    → FinanceOption
    → IdMap ℤ
    → (Throws OptionInsertionResult × W)
    → (Throws FinanceOption × (W × IdMap ℤ))
numbered v m (err x, w) = (err x, (w, m))
numbered v m (ok r, w) =
    (ok (record (options.set_id v r.option_id) { instrument_id = r.instrument_id }), (w, m))

module _ {W : Type 0} (D : OptionService W) where
  -- `getOptions`
  unfoldable pub get_options : IdSet → BaseStore FinanceOption → W → IdMap FinanceOption
  get_options ids s w =
      let held =
        map (λ e. e.value)
          (filter_if (λ e. contains ids e.value.instrument_id && not (is_deleted_state e.state))
            s.entries) in
      let result = add_options [] held in
      if s.full_cache then result else add_options result (D.read_options_of ids w)

  -- `getOption`, which throws if an instrument has several options.
  unfoldable pub get_option : ℤ → BaseStore FinanceOption → W → Throws (Option FinanceOption)
  get_option i s w = only (get_values (get_options (i ∷ []) s w))

  -- The creation of a row in `commit`, beside `_instrumentIdMap`; it may throw.
  unfoldable pub insert_new : FinanceOption → W × IdMap ℤ → (Throws FinanceOption × (W × IdMap ℤ))
  insert_new v (w, m) = numbered v m (D.insert_option v w)

  abbrev pub writing : Writing FinanceOption (W × IdMap ℤ)
  writing = record {
    create = insert_new;
    proceed = λ old new o s w. renumbered o s w old.instrument_id new.instrument_id;
    refused = Failure.thrown Exception.not_yet_implemented;
  }

  unfoldable pub save_option :
      Entry FinanceOption
      → BaseStore FinanceOption
      → W × IdMap ℤ
      → Outcome FinanceOption (W × IdMap ℤ)
  save_option = save options writing

  -- `commit`
  unfoldable pub commit_options :
      (re_map : IdMap ℤ)
      → BaseStore FinanceOption
      → W × IdMap ℤ
      → Outcome FinanceOption (W × IdMap ℤ)
  commit_options re_map s (w, m) =
      if not (is_dirty s)
      then (ok tt, s, (w, m))
      else and_next (for_each_entry (remap_underlying re_map) s (w, m))
          λ s₁ v. and_next (for_each_entry save_option s₁ (v.0, [])) finished

  -- The constructor and `reload`
  unfoldable pub reload_options : BaseStore FinanceOption → W → BaseStore FinanceOption
  reload_options s w = add_clean_entries (D.read_options w) (clear_entries s)
