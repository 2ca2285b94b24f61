-- ===== src/Finance/Transaction/Filter.antt =====
-- Filters of stored transactions (finance/src/finance/transaction/transaction_filter.cpp).
use molar_tracker.Base.{
  ◌≡◌, refl, Bool, ◌&&◌, ◌||◌, if◌then◌else◌, any, ok, err, arith, Bool-cases, inl, inr,
}
use molar_tracker.Common.Container.Set.{IdSet, contains, is_empty_set}
use molar_tracker.Common.Exception.{Throws, logic_error}
use molar_tracker.Filter.ExprNode.{Node, leaf, make_and}
use molar_tracker.Filter.Predicate.{evaluate_predicate, evaluate_predicate-connectives}
use molar_tracker.Finance.Transaction.Domain.{
  DomainTransaction, has_position_id, is_account_involved,
}

pub record TransactionFilter : Type 0 where
  pub position_ids : IdSet
  pub transaction_ids : IdSet
  pub account_ids : IdSet

-- `HasPositionId`, `HasTransactionId` and `HasAccountId`
abbrev pub has_a_position : IdSet → DomainTransaction → Bool
has_a_position ids t = any (has_position_id t) ids

abbrev pub has_a_transaction : IdSet → DomainTransaction → Bool
has_a_transaction ids t = contains ids t.base.id

abbrev pub has_an_account : IdSet → DomainTransaction → Bool
has_an_account ids t = any (is_account_involved t) ids

-- `predicate &= …`, unless the set is empty.
unfoldable pub narrowed :
    IdSet
    → (DomainTransaction → Bool)
    → Node (DomainTransaction → Bool)
    → Node (DomainTransaction → Bool)
narrowed ids test node = if is_empty_set ids then node else make_and node (leaf test)

-- `TransactionFilter::getPredicate`
pub get_predicate : TransactionFilter → Throws (Node (DomainTransaction → Bool))
get_predicate f =
    if is_empty_set f.account_ids
    then err logic_error
    else ok (
        narrowed f.transaction_ids (has_a_transaction f.transaction_ids) (
          narrowed f.position_ids (has_a_position f.position_ids)
            (leaf (has_an_account f.account_ids))))

-- How a filter that throws or returns a predicate judges a transaction.
abbrev pub judges : Throws (Node (DomainTransaction → Bool)) → DomainTransaction → Throws Bool
judges (ok n) t = ok (evaluate_predicate n t)
judges (err e) t = err e

evaluate_predicate-leaf :
    (f : DomainTransaction → Bool) (t : DomainTransaction) → evaluate_predicate (leaf f) t ≡ f t
unfolding evaluate_predicate
evaluate_predicate-leaf f t = refl

evaluate_predicate-narrowed :
    (ids : IdSet) (test : DomainTransaction → Bool) (n : Node (DomainTransaction → Bool))
    (t : DomainTransaction)
    → evaluate_predicate (narrowed ids test n) t
      ≡ (evaluate_predicate n t && (is_empty_set ids || test t))
unfolding narrowed
evaluate_predicate-narrowed ids test n t =
    ground
      (arith, (evaluate_predicate-connectives n (leaf test) t).0, evaluate_predicate-leaf test t)

-- Without an account a filter throws; with one it matches exactly the transactions that involve one
-- of its accounts, have one of its positions if it names any, and one of its identifiers if it names
-- any.
pub get_predicate_lem :
    (f : TransactionFilter) (t : DomainTransaction)
    → judges (get_predicate f) t ≡ (
        if is_empty_set f.account_ids
        then err logic_error
        else ok (
            has_an_account f.account_ids t
            && ((is_empty_set f.position_ids || has_a_position f.position_ids t)
                && (is_empty_set f.transaction_ids || has_a_transaction f.transaction_ids t))))
unfolding get_predicate
get_predicate_lem f t =
    let account = has_an_account f.account_ids in
    let position = has_a_position f.position_ids in
    let kept = narrowed f.position_ids position (leaf account) in
    elim (Bool-cases (is_empty_set f.account_ids)) [
      | inl e ↦ rw e refl
      | inr e ↦ ground (
        arith,
        e,
        evaluate_predicate-narrowed f.transaction_ids (has_a_transaction f.transaction_ids) kept t,
        evaluate_predicate-narrowed f.position_ids position (leaf account) t,
        evaluate_predicate-leaf account t,
      )
    ]
