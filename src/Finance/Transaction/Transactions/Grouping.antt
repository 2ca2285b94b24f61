-- ===== src/Finance/Transaction/Transactions/Grouping.antt =====
-- What grouping by position puts together (finance/src/finance/transaction/transactions.cpp).
use molar_tracker.Base.{
  ◌≡◌, refl, sym, ap, ◌∙◌, Option, none, some, List, [], ◌∷◌, ◌++◌, true, if◌then◌else◌, filter_if,
  arith,
}
use molar_tracker.Base.Int.{ℤ, eqb_ℤ, eqb_ℤ→eq}
use mathlib.Core.List.{append-nil, append_assoc}
use molar_tracker.Common.Container.Map.{
  IdMap, at, has_key, add_unchecked, at-add_unchecked, at-update,
}
use molar_tracker.Common.Id.{is_valid_id}
use molar_tracker.Finance.Transaction.{StockTransaction, OptionTransaction}
use molar_tracker.Finance.Transaction.Transactions.{
  Transactions, no_transactions, add_stock, add_option, group_stock, group_option, group_stocks,
  group_options, group_by_position,
}

-- The transactions of one position.
abbrev pub stocks_under : ℤ → List StockTransaction → List StockTransaction
stocks_under i ts = filter_if (λ t. eqb_ℤ t.security.position_id i) ts

abbrev pub options_under : ℤ → List OptionTransaction → List OptionTransaction
options_under i ts = filter_if (λ t. eqb_ℤ t.security.position_id i) ts

-- The group of a position, from its transactions; there is none before the first.
abbrev pub group_of : List StockTransaction → List OptionTransaction → Option Transactions
group_of [] [] = none
group_of (t ∷ ts) os = some (record { cash = []; stocks = t ∷ ts; options = os })
group_of [] (o ∷ os) = some (record { cash = []; stocks = []; options = o ∷ os })

-- A group with one more transaction.
abbrev begun : Option Transactions → Transactions
begun none = no_transactions
begun (some g) = g

abbrev more_stocks : Option Transactions → List StockTransaction → Option Transactions
more_stocks g [] = g
more_stocks g (t ∷ ts) = more_stocks (some (add_stock t (begun g))) ts

abbrev more_options : Option Transactions → List OptionTransaction → Option Transactions
more_options g [] = g
more_options g (t ∷ ts) = more_options (some (add_option t (begun g))) ts

abbrev held : IdMap Transactions → ℤ → IdMap Transactions
held m i = if has_key m i then m else add_unchecked m i no_transactions

at-held :
    (m : IdMap Transactions) (i j : ℤ)
    → at (held m i) j
      ≡ elim (at m j) [ none ↦ if eqb_ℤ i j then some no_transactions else none | some g ↦ some g ]
unfolding has_key
at-held m i j = ground (arith, at-add_unchecked m i j no_transactions, eqb_ℤ→eq i j)

at-group_stock :
    (m : IdMap Transactions) (t : StockTransaction) (i : ℤ)
    → is_valid_id i ≡ true
    → at (group_stock m t) i
      ≡ (if eqb_ℤ t.security.position_id i then some (add_stock t (begun (at m i))) else at m i)
unfolding group_stock
at-group_stock m t i v =
    let p = t.security.position_id in
    ground (arith, at-update (add_stock t) (held m p) p i, at-held m p i, eqb_ℤ→eq p i)

at-group_option :
    (m : IdMap Transactions) (t : OptionTransaction) (i : ℤ)
    → is_valid_id i ≡ true
    → at (group_option m t) i
      ≡ (if eqb_ℤ t.security.position_id i then some (add_option t (begun (at m i))) else at m i)
unfolding group_option
at-group_option m t i v =
    let p = t.security.position_id in
    ground (arith, at-update (add_option t) (held m p) p i, at-held m p i, eqb_ℤ→eq p i)

at-group_stocks :
    (m : IdMap Transactions) (ts : List StockTransaction) (i : ℤ)
    → is_valid_id i ≡ true
    → at (group_stocks m ts) i ≡ more_stocks (at m i) (stocks_under i ts)
unfolding group_stocks
at-group_stocks m [] i v = refl
at-group_stocks m (t ∷ ts) i v =
    ground (arith, at-group_stocks (group_stock m t) ts i v, at-group_stock m t i v)

at-group_options :
    (m : IdMap Transactions) (ts : List OptionTransaction) (i : ℤ)
    → is_valid_id i ≡ true
    → at (group_options m ts) i ≡ more_options (at m i) (options_under i ts)
unfolding group_options
at-group_options m [] i v = refl
at-group_options m (t ∷ ts) i v =
    ground (arith, at-group_options (group_option m t) ts i v, at-group_option m t i v)

-- The transactions of a group accumulate in order.
more_stocks-some :
    (g : Transactions) (ts : List StockTransaction)
    → more_stocks (some g) ts ≡ some (record g { stocks = g.stocks ++ ts })
more_stocks-some g [] = ap (λ xs. some (record g { stocks = xs })) (sym (append-nil g.stocks))
more_stocks-some g (t ∷ ts) =
    more_stocks-some (add_stock t g) ts
    ∙ ap (λ xs. some (record g { stocks = xs })) (append_assoc g.stocks (t ∷ []) ts)

more_options-some :
    (g : Transactions) (ts : List OptionTransaction)
    → more_options (some g) ts ≡ some (record g { options = g.options ++ ts })
more_options-some g [] = ap (λ xs. some (record g { options = xs })) (sym (append-nil g.options))
more_options-some g (t ∷ ts) =
    more_options-some (add_option t g) ts
    ∙ ap (λ xs. some (record g { options = xs })) (append_assoc g.options (t ∷ []) ts)

more-group_of :
    (ss : List StockTransaction) (os : List OptionTransaction)
    → more_options (more_stocks none ss) os ≡ group_of ss os
more-group_of [] [] = refl
more-group_of [] (o ∷ os) = more_options-some (add_option o no_transactions) os
more-group_of (s ∷ ss) os =
    ap (λ g. more_options g os) (more_stocks-some (add_stock s no_transactions) ss)
    ∙ more_options-some (record { cash = []; stocks = s ∷ ss; options = [] }) os

-- For every valid position, grouping has a group exactly if some stock or option transaction has that
-- position, and the group holds exactly those transactions, in their order, and no cash transaction.
pub at-group_by_position :
    (ts : Transactions) (i : ℤ)
    → is_valid_id i ≡ true
    → at (group_by_position ts) i ≡ group_of (stocks_under i ts.stocks) (options_under i ts.options)
unfolding group_by_position at
at-group_by_position ts i v =
    at-group_options (group_stocks [] ts.stocks) ts.options i v
    ∙ ap (λ g. more_options g (options_under i ts.options)) (at-group_stocks [] ts.stocks i v)
    ∙ more-group_of (stocks_under i ts.stocks) (options_under i ts.options)
