-- ===== src/Store/OptionStore/Remap.antt =====
-- The new identifiers of the underlyings of options (store/src/store/option_store.cpp).
use mathlib.Core.List.{append_assoc, append-nil}
use molar_tracker.Base.{
  ◌≡◌, refl, sym, subst, ap, ◌∙◌, none, some, List, [], ◌∷◌, ◌++◌, true, not, ok, err, any, all,
  arith, Bool-cases, inl, inr, Option-cases, if◌then◌else◌,
}
use molar_tracker.Base.Int.{ℤ}
use molar_tracker.Common.Container.Map.{IdMap, at, get_keys}
use molar_tracker.Common.Exception.{Exception}
use molar_tracker.Store.BaseStore.{StoreState, Entry, BaseStore, is_new, update_entry}
use molar_tracker.Store.Distinct.{distinct, distinct-replace, update_entry-middle}
use molar_tracker.Store.Loop.{
  Failure, Step, view, walk, Follows, for_each_entry, for_each_entry-walk, for_each_entry-keeps,
}
use molar_tracker.Store.OptionStore.{
  FinanceOption, options, has_underlying, update_underlying, remap_underlying,
}
use molar_tracker.Store.Saving.{all-middle, savable}

abbrev Row : Type 0
Row = Entry FinanceOption

-- A new option whose underlying has a new identifier gets that one, any other new one is left alone, and
-- one that is not new must have an underlying that keeps its identifier.
unfoldable pub renumber_row : {W : Type 0} → IdMap ℤ → Step FinanceOption W
renumber_row m e w =
    if not (is_new e.state)
    then (if any (has_underlying e.value) (get_keys m)
        then (err (Failure.thrown Exception.runtime_error), w)
        else (ok e, w))
    else elim (at m e.value.underlying.instrument_id) [
      | none ↦ (ok e, w)
      | some i ↦ (ok (record { value = update_underlying e.value i; state = StoreState.new }), w)
    ]

-- No two options have one identifier, and all can be stored.
abbrev pub Ready : List Row → Type 0
Ready es = (distinct options es ≡ true) × (all (savable options) es ≡ true)

abbrev Kept : List Row → List Row → Type 0
Kept before after = Ready (before ++ after)

savable-update_underlying :
    (e : Row) (i : ℤ)
    → is_new e.state ≡ true
    → savable options (record { value = update_underlying e.value i; state = StoreState.new })
      ≡ savable options e
unfolding savable update_underlying
savable-update_underlying e i n = ground (arith, n)

module _ (m : IdMap ℤ) {W : Type 0} (before after : List Row) (e : Row)
    (s : BaseStore FinanceOption) (w : W) (h : s.entries ≡ before ++ e ∷ after)
    (k : Ready (before ++ e ∷ after)) where
  stays-Follows : Follows Kept before after e (ok tt, s, w) (ok e, w)
  stays-Follows =
      (ap (λ es. (ok tt, es, w)) h, subst Ready (sym (append_assoc before (e ∷ []) after)) k)

  renames-Follows :
      (i : ℤ)
      → is_new e.state ≡ true
      → Follows Kept before after e
          (ok tt, (update_entry options (update_underlying e.value i) StoreState.new s).1, w)
          (ok (record { value = update_underlying e.value i; state = StoreState.new }), w)
  unfolding update_underlying
  renames-Follows i n =
      let x : Row = record { value = update_underlying e.value i; state = StoreState.new } in
      let same : savable options x ≡ savable options e = savable-update_underlying e i n in
      let kept : Ready (before ++ x ∷ after) = (
        distinct-replace options before after x e refl ∙ k.0,
        rw (all-middle (savable options) before after x, same)
            (sym (all-middle (savable options) before after e) ∙ k.1),
      ) in
      (
        ap (λ es. (ok tt, es, w))
            (update_entry-middle options (update_underlying e.value i) s before after e h k.0 refl),
        subst Ready (sym (append_assoc before (x ∷ []) after)) kept,
      )

  remap_underlying-Follows :
      Follows Kept before after e (remap_underlying m e s w) (renumber_row m e w)
  unfolding remap_underlying renumber_row
  remap_underlying-Follows = elim (Bool-cases (is_new e.state)) [
    | inr n ↦ elim (Bool-cases (any (has_underlying e.value) (get_keys m))) [
      | inl u ↦
          rw (remap_underlying, renumber_row, n, u)
            (ap (λ es. (err (Failure.thrown Exception.runtime_error), es, w)) h)
      | inr u ↦ rw (remap_underlying, renumber_row, n, u) stays-Follows
    ]
    | inl n ↦ elim (Option-cases (at m e.value.underlying.instrument_id)) [
      | inl a ↦ rw (remap_underlying, renumber_row, n, a) stays-Follows
      | inr (i, a) ↦ rw (remap_underlying, renumber_row, n, a) (renames-Follows i n)
    ]
  ]

module _ (m : IdMap ℤ) {W : Type 0} (s : BaseStore FinanceOption) (w : W)
    (k : Ready s.entries) where
  -- The loop of the renaming is a pass over the list, and what can be committed stays so.
  pub remap_underlying-walk :
      view (for_each_entry (remap_underlying m) s w) ≡ walk (renumber_row m) s.entries w
  remap_underlying-walk =
      for_each_entry-walk (remap_underlying m) (renumber_row m) Kept
        (λ e before after s w h k. remap_underlying-Follows m before after e s w h k) s w k

  pub remap_underlying-Ready :
      (for_each_entry (remap_underlying m) s w).0 ≡ ok tt
      → Ready (for_each_entry (remap_underlying m) s w).1.entries
  remap_underlying-Ready e =
      subst Ready (append-nil (for_each_entry (remap_underlying m) s w).1.entries) (
        for_each_entry-keeps (remap_underlying m) (renumber_row m) Kept
          (λ e before after s w h k. remap_underlying-Follows m before after e s w h k) s w k e)
