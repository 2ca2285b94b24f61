-- ===== src/Store/TransactionStore/Remap.antt =====
-- Renaming the identifiers of the entries that a commit is about to save
-- (store/src/store/transaction_store.cpp).
use mathlib.Core.List.{append_assoc, append-nil}
use molar_tracker.Base.{
  ◌≡◌, refl, sym, subst, ap, ◌∙◌, List, [], ◌∷◌, ◌++◌, Bool, true, false, ◌||◌, not, ok, err, any,
  all, map, arith, Result, if◌then◌else◌,
}
use molar_tracker.Base.Int.{ℤ}
use molar_tracker.Common.Container.Map.{IdMap, has_key, get_keys}
use molar_tracker.Common.Exception.{Throws, runtime_error, ok_eq}
use molar_tracker.Finance.Transaction.{TransactionEntry, TradeLeg, TransactionData}
use molar_tracker.Finance.Transaction.Domain.{
  DomainTransaction, get_legs, set_legs, set_legs_of, with_data, set_entries, has_instrument_id,
  has_position_id,
}
use molar_tracker.Store.BaseStore.{StoreState, Entry, BaseStore, is_new}
use molar_tracker.Store.Loop.{
  Failure, Outcome, Step, view, walk, Follows, for_each_entry, for_each_entry-walk,
  for_each_entry-keeps,
}
use molar_tracker.Store.TransactionStore.{
  transactions, update_new, refers_to_account, with_accounts, remap_account, remap_instrument,
  remap_position, renamed,
}
use molar_tracker.Store.Saving.{all-middle, savable}
use molar_tracker.Store.Distinct.{distinct, distinct-replace, update_entry-middle}

abbrev pub Row : Type 0
Row = Entry DomainTransaction

-- No two entries have one identifier, and all can be stored.
abbrev pub Ready : List Row → Type 0
Ready es = (distinct transactions es ≡ true) × (all (savable transactions) es ≡ true)

abbrev Kept : List Row → List Row → Type 0
Kept before after = Ready (before ++ after)

abbrev refused : {W : Type 0} → W → (Result Failure Row × W)
refused w = (err (Failure.thrown runtime_error), w)

-- A new entry with what became of its value.
abbrev renewed : {W : Type 0} → Throws DomainTransaction → W → (Result Failure Row × W)
renewed (ok t) w = (ok (record { value = t; state = StoreState.new }), w)
renewed (err x) w = (err (Failure.thrown x), w)

abbrev with_legs : DomainTransaction → (TradeLeg → TradeLeg) → Throws DomainTransaction
with_legs t f = set_legs t (map f (get_legs t))

-- What the three loops of the renaming do to an entry.
module _ {W : Type 0} where
  unfoldable pub rename_account : IdMap ℤ → Step DomainTransaction W
  rename_account m e w =
      if not (is_new e.state)
      then (if refers_to_account m e.value then refused w else (ok e, w))
      else if refers_to_account m e.value || any (λ l. has_key m l.account_id) (get_legs e.value)
      then renewed (with_accounts m e.value) w
      else (ok e, w)

  unfoldable pub rename_instrument : IdMap ℤ → Step DomainTransaction W
  rename_instrument m e w =
      if not (is_new e.state)
      then (if any (has_instrument_id e.value) (get_keys m) then refused w else (ok e, w))
      else if any (λ l. has_key m l.instrument_id) (get_legs e.value)
      then renewed (with_legs e.value (λ l. record l { instrument_id = renamed m l.instrument_id }))
          w
      else (ok e, w)

  unfoldable pub rename_position : IdMap ℤ → Step DomainTransaction W
  rename_position m e w =
      if not (is_new e.state)
      then (if any (has_position_id e.value) (get_keys m) then refused w else (ok e, w))
      else if any (λ l. has_key m l.position_id) (get_legs e.value)
      then renewed (with_legs e.value (λ l. record l { position_id = renamed m l.position_id })) w
      else (ok e, w)

-- Other legs leave the identifier of a transaction.
same_id_of :
    (t r : DomainTransaction) (o : Throws TransactionData)
    → with_data t o ≡ ok r
    → r.base.id ≡ t.base.id
unfolding with_data
same_id_of t r (ok d) h = ap (λ x. x.base.id) (sym (ok_eq h))
same_id_of t r (err x) h = absurd (cc)

set_legs-id :
    (t r : DomainTransaction) (legs : List TradeLeg)
    → set_legs t legs ≡ ok r
    → r.base.id ≡ t.base.id
unfolding set_legs
set_legs-id t r legs h = same_id_of t r (set_legs_of t.transaction_data legs) h

with_accounts-id :
    (m : IdMap ℤ) (t r : DomainTransaction) → with_accounts m t ≡ ok r → r.base.id ≡ t.base.id
unfolding set_entries
with_accounts-id m t r h =
    set_legs-id
      (set_entries t (
        map (λ (x : TransactionEntry). record x { account_id = renamed m x.account_id }) t.entries))
      r _ h

savable-renewed :
    (e : Row) (t : DomainTransaction)
    → is_new e.state ≡ true
    → t.base.id ≡ e.value.base.id
    → savable transactions (record { value = t; state = StoreState.new }) ≡ savable transactions e
unfolding savable
savable-renewed e t n q = ground (arith, n, q)

module _ {W : Type 0} (before after : List Row) (e : Row) (s : BaseStore DomainTransaction) (w : W)
    (h : s.entries ≡ before ++ e ∷ after) (k : Ready (before ++ e ∷ after)) where
  stays-Follows : Follows Kept before after e (ok tt, s, w) (ok e, w)
  stays-Follows =
      (ap (λ es. (ok tt, es, w)) h, subst Ready (sym (append_assoc before (e ∷ []) after)) k)

  refused-Follows :
      Follows Kept before after e (err (Failure.thrown runtime_error), s, w) (refused w)
  refused-Follows = ap (λ es. (err (Failure.thrown runtime_error), es, w)) h

  renewed-Follows :
      (o : Throws DomainTransaction)
      → is_new e.state ≡ true
      → ((t : DomainTransaction) → o ≡ ok t → t.base.id ≡ e.value.base.id)
      → Follows Kept before after e (update_new o s w) (renewed o w)
  renewed-Follows (err x) n i = ap (λ es. (err (Failure.thrown x), es, w)) h
  renewed-Follows (ok t) n i =
      let x : Row = record { value = t; state = StoreState.new } in
      let same : savable transactions x ≡ savable transactions e =
        savable-renewed e t n (i t refl) in
      let kept : Ready (before ++ x ∷ after) = (
        distinct-replace transactions before after x e (i t refl) ∙ k.0,
        rw (all-middle (savable transactions) before after x, same)
            (sym (all-middle (savable transactions) before after e) ∙ k.1),
      ) in
      (
        ap (λ es. (ok tt, es, w))
            (update_entry-middle transactions t s before after e h k.0 (i t refl)),
        subst Ready (sym (append_assoc before (x ∷ []) after)) kept,
      )

  -- A round whose tests are given: whether the entry is new, whether it is referred to, and whether it
  -- is to be written.
  round-Follows :
      (new refers writes : Bool) (o : Throws DomainTransaction)
      → new ≡ is_new e.state
      → ((t : DomainTransaction) → o ≡ ok t → t.base.id ≡ e.value.base.id)
      → Follows Kept before after e
          (if not new
            then (if refers then (err (Failure.thrown runtime_error), s, w) else (ok tt, s, w))
            else if writes
            then update_new o s w
            else (ok tt, s, w))
          (if not new
            then (if refers then refused w else (ok e, w))
            else if writes
            then renewed o w
            else (ok e, w))
  round-Follows false true writes o q i = refused-Follows
  round-Follows false false writes o q i = stays-Follows
  round-Follows true refers true o q i = renewed-Follows o (sym q) i
  round-Follows true refers false o q i = stays-Follows

  remap_account-Follows :
      (m : IdMap ℤ) → Follows Kept before after e (remap_account m e s w) (rename_account m e w)
  unfolding remap_account rename_account
  remap_account-Follows m =
      round-Follows (is_new e.state) (refers_to_account m e.value) _ (with_accounts m e.value) refl
        (λ t. with_accounts-id m e.value t)

  remap_instrument-Follows :
      (m : IdMap ℤ)
      → Follows Kept before after e (remap_instrument m e s w) (rename_instrument m e w)
  unfolding remap_instrument rename_instrument
  remap_instrument-Follows m =
      round-Follows (is_new e.state) (any (has_instrument_id e.value) (get_keys m)) _ _ refl
        (λ t. set_legs-id e.value t _)

  remap_position-Follows :
      (m : IdMap ℤ) → Follows Kept before after e (remap_position m e s w) (rename_position m e w)
  unfolding remap_position rename_position
  remap_position-Follows m =
      round-Follows (is_new e.state) (any (has_position_id e.value) (get_keys m)) _ _ refl
        (λ t. set_legs-id e.value t _)

-- A loop of rounds that follow a step is a pass over the list, and what can be committed stays so.
abbrev pub Renames :
    {W : Type 0}
    → (Row → BaseStore DomainTransaction → W → Outcome DomainTransaction W)
    → Step DomainTransaction W
    → Type 0
Renames {W} body f =
    (s : BaseStore DomainTransaction) (w : W)
    → Ready s.entries
    → (view (for_each_entry body s w) ≡ walk f s.entries w)
      × ((for_each_entry body s w).0 ≡ ok tt → Ready (for_each_entry body s w).1.entries)

module _ {W : Type 0} (m : IdMap ℤ) where
  renames :
      (body : Row → BaseStore DomainTransaction → W → Outcome DomainTransaction W)
      (f : Step DomainTransaction W)
      → ((e : Row) (before after : List Row) (s : BaseStore DomainTransaction) (w : W)
          → s.entries ≡ before ++ e ∷ after
          → Ready (before ++ e ∷ after)
          → Follows Kept before after e (body e s w) (f e w))
      → Renames body f
  renames body f r s w k = (
    for_each_entry-walk body f Kept r s w k,
    λ e.
        subst Ready (append-nil (for_each_entry body s w).1.entries)
          (for_each_entry-keeps body f Kept r s w k e),
  )

  pub remap_account-Renames : Renames (remap_account {W = W} m) (rename_account m)
  remap_account-Renames =
      renames (remap_account m) (rename_account m)
        (λ e before after s w h k. remap_account-Follows before after e s w h k m)

  pub remap_instrument-Renames : Renames (remap_instrument {W = W} m) (rename_instrument m)
  remap_instrument-Renames =
      renames (remap_instrument m) (rename_instrument m)
        (λ e before after s w h k. remap_instrument-Follows before after e s w h k m)

  pub remap_position-Renames : Renames (remap_position {W = W} m) (rename_position m)
  remap_position-Renames =
      renames (remap_position m) (rename_position m)
        (λ e before after s w h k. remap_position-Follows before after e s w h k m)
