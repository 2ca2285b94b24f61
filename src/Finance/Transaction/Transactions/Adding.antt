-- ===== src/Finance/Transaction/Transactions/Adding.antt =====
-- Adding stored transactions (finance/src/finance/transaction/transactions.cpp).
use molar_tracker.Base.{◌≡◌, refl, sym, ap, ◌∙◌, List, [], ◌∷◌, ◌++◌, ok, err}
use mathlib.Core.Path.{fun_ext}
use molar_tracker.Finance.Account.{Accounts}
use molar_tracker.Finance.Transaction.Domain.{DomainTransaction}
use molar_tracker.Finance.Transaction.Transactions.{
  Transactions, Added, and_then, add_domain, add_transactions,
}

and_then_assoc :
    (a : Added) (f g : Transactions → Added)
    → and_then (and_then a f) g ≡ and_then a (λ ts. and_then (f ts) g)
and_then_assoc (ok u, ts) f g = refl
and_then_assoc (err e, ts) f g = refl

-- Adding two lists one after the other: if the first one fails, its error and what it had added
-- stand, and nothing of the second is added; if not, the second is added to what the first left.
pub add_transactions-append :
    (xs ys : List DomainTransaction) (accounts : Accounts) (ts : Transactions)
    → add_transactions (xs ++ ys) accounts ts
      ≡ and_then (add_transactions xs accounts ts) (add_transactions ys accounts)
unfolding add_transactions
add_transactions-append [] ys accounts ts = refl
add_transactions-append (x ∷ xs) ys accounts ts =
    ap (and_then (add_domain x.transaction_data x accounts ts))
      (fun_ext (add_transactions-append xs ys accounts))
    ∙ sym (and_then_assoc (add_domain x.transaction_data x accounts ts) _ _)
