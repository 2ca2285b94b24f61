-- ===== src/Store/TransactionStore/Reading.antt =====
-- Which transactions are read, from the store or from the database
-- (`getTransactions` of store/src/store/transaction_store.cpp).
use mathlib.Core.List.{append-nil}
use molar_tracker.Base.{
  ◌≡◌, refl, ap, ◌∙◌, List, [], ◌∷◌, ◌++◌, Bool, false, ◌&&◌, not, if◌then◌else◌, map, filter_if,
  arith, Bool-cases, inl, inr,
}
use molar_tracker.Base.Int.{ℤ, eqb_ℤ, eqb_ℤ→eq}
use molar_tracker.Common.Container.Set.{contains}
use molar_tracker.Finance.Transaction.Domain.{DomainTransaction}
use molar_tracker.Finance.Transaction.Filter.{TransactionFilter}
use molar_tracker.Store.BaseStore.{BaseStore, is_deleted_state}
use molar_tracker.Store.TransactionStore.{TransactionService, merged}

-- The transactions that have an identifier.
abbrev pub under : ℤ → List DomainTransaction → List DomainTransaction
under i ts = filter_if (λ t. eqb_ℤ t.base.id i) ts

abbrev pub ids_of : List DomainTransaction → List ℤ
ids_of ts = map (λ t. t.base.id) ts

-- The transactions in the store that match a test and are not deleted.
abbrev pub held_in :
    (DomainTransaction → Bool) → BaseStore DomainTransaction → List DomainTransaction
held_in test s =
    map (λ e. e.value) (filter_if (λ e. test e.value && not (is_deleted_state e.state)) s.entries)

under-append :
    (i : ℤ) (xs ys : List DomainTransaction) → under i (xs ++ ys) ≡ under i xs ++ under i ys
under-append i [] ys = refl
under-append i (x ∷ xs) ys = ground (arith, under-append i xs ys)

under-others :
    (i : ℤ) (ids : List ℤ) (ts : List DomainTransaction)
    → under i (filter_if (λ t. not (contains ids t.base.id)) ts)
      ≡ (if contains ids i then [] else under i ts)
under-others i ids [] = ground arith
under-others i ids (t ∷ ts) = ground (arith, under-others i ids ts, eqb_ℤ→eq t.base.id i)

under-none :
    (i : ℤ) (ts : List DomainTransaction) → contains (ids_of ts) i ≡ false → under i ts ≡ []
unfolding contains
under-none i [] h = refl
under-none i (t ∷ ts) h = ground (arith, under-none i ts)

under-overlay :
    (i : ℤ) (held rows : List DomainTransaction)
    → under i (held ++ filter_if (λ t. not (contains (ids_of held) t.base.id)) rows)
      ≡ (if contains (ids_of held) i then under i held else under i rows)
under-overlay i held rows =
    under-append i held (filter_if (λ t. not (contains (ids_of held) t.base.id)) rows)
    ∙ ap (λ ts. under i held ++ ts) (under-others i (ids_of held) rows)
    ∙ elim (Bool-cases (contains (ids_of held) i)) [
      | inl e ↦ rw e (append-nil (under i held))
      | inr e ↦ rw (e, under-none i held e) refl
    ]

-- What is read under an identifier is what matches in the store and is not deleted, if there is any;
-- only if there is none is it what the database has.
pub under-merged :
    {W : Type 0} (D : TransactionService W) (f : TransactionFilter)
    (test : DomainTransaction → Bool) (s : BaseStore DomainTransaction) (w : W) (i : ℤ)
    → under i (merged D f test s w) ≡ (
        if contains (ids_of (held_in test s)) i
        then under i (held_in test s)
        else under i (D.read_transactions f w))
under-merged D f test s w i = under-overlay i (held_in test s) (D.read_transactions f w)
