-- ===== src/Finance/Pnl/Option.antt =====
-- An option trade applied to a position's state (`applyOpen`, `applyClose`, `applyExercised` and
-- `apply` for `OptionTrade` in pnl.cpp).
pub mod Legs
pub mod Accounts
pub mod Distinct
pub mod Settle
pub mod Effect
pub mod Dispatch
pub mod Books
use molar_tracker.Base.{
  List, [], ◌∷◌, ◌++◌, Bool, true, false, ◌&&◌, if◌then◌else◌, Option, none, some, Result, ok, err,
  ◌>>=◌,
}
use molar_tracker.Base.Int.{ℤ, pos, eqb_ℤ}
use molar_tracker.Common.Exception.{Exception, Throws}
use molar_tracker.Common.Cash.{
  Cash, no_cash, equal, plus, minus, times, over, add_assign, sub_assign,
}
use molar_tracker.Common.Quantity.{Quantity, is_zero, add, sub, scale}
use molar_tracker.Finance.Pnl.State.{
  OptionBuySell, TransactionOptionAction, OptionTrade, OpenOptionLeg, PositionState, option_type_eq,
  buy_sell_eq, open_side,
}

-- The predicate of `find_if`: `&&` looks at the strike price only if the rest agrees, and a strike
-- price in another currency throws.
unfoldable pub matches : OptionBuySell → OptionTrade → OpenOptionLeg → Throws Bool
matches side t l =
    if option_type_eq l.option_type t.option_type && buy_sell_eq l.buy_sell side
    then equal l.strike_price t.strike
    else ok false

-- The legs before the one that is found, that leg, and those behind it.
abbrev pub Found : Type 0
Found = Option (List OpenOptionLeg × OpenOptionLeg × List OpenOptionLeg)

abbrev pub behind : OpenOptionLeg → Found → Found
behind l none = none
behind l (some (before, hit, after)) = some (l ∷ before, hit, after)

unfoldable pub find_leg : OptionBuySell → OptionTrade → List OpenOptionLeg → Throws Found
unfolding matches
find_leg side t [] = ok none
find_leg side t (l ∷ ls) =
    let rest = find_leg side t ls in
    do
      hit ← matches side t l
      if hit then ok (some ([], l, ls)) else (rest >>= λ f. ok (behind l f))

unfoldable pub add_leg : OptionTrade → List OpenOptionLeg → Found → List OpenOptionLeg
add_leg t ls none =
    ls
    ++ record {
      option_type = t.option_type;
      buy_sell = t.buy_sell;
      strike_price = t.strike;
      qty = t.quantity;
    }
      ∷ []
add_leg t ls (some (before, l, after)) = before ++ (record l { qty = add l.qty t.quantity } ∷ after)

-- The premium and the cost that opening a leg books.
unfoldable pub open_cash : PositionState → OptionTrade → OptionBuySell → Throws PositionState
open_cash s t OptionBuySell.buy = do
  unrealized ← sub_assign s.unrealized_option_pnl t.premium
  cost ← add_assign s.cost_basis t.premium
  ok (record s { unrealized_option_pnl = unrealized; cost_basis = cost })
open_cash s t OptionBuySell.sell = do
  unrealized ← add_assign s.unrealized_option_pnl t.premium
  cost ← add_assign s.cost_basis (times t.strike (scale t.quantity s.contract_size))
  ok (record s { unrealized_option_pnl = unrealized; cost_basis = cost })

unfoldable pub apply_open : PositionState → OptionTrade → Throws PositionState
apply_open s t = do
  found ← find_leg t.buy_sell t s.open_option_legs
  open_cash (record s { open_option_legs = add_leg t s.open_option_legs found }) t t.buy_sell

-- What closing takes out: the realized share of the premiums, its cost, and the legs that stay.
pub record Taken : Type 0 where
  pub realized : Cash
  pub cost_reduction : Cash
  pub legs : List OpenOptionLeg

-- The leg that is found gives up the trade's quantity, and goes once it is empty.
unfoldable pub reduce_leg :
    OptionTrade → List OpenOptionLeg → OpenOptionLeg → List OpenOptionLeg → List OpenOptionLeg
reduce_leg t before l after =
    if is_zero (sub l.qty t.quantity)
    then before ++ after
    else before ++ (record l { qty = sub l.qty t.quantity } ∷ after)

unfoldable pub take_out : PositionState → OptionTrade → Found → Throws Taken
take_out s t none =
    ok (record { realized = no_cash; cost_reduction = no_cash; legs = s.open_option_legs })
take_out s t (some (before, l, after)) =
    if is_zero l.qty
    then ok (record { realized = no_cash; cost_reduction = no_cash; legs = s.open_option_legs })
    else (do
      share ← over s.unrealized_option_pnl l.qty
      cost ← over s.cost_basis l.qty
      ok (record {
        realized = times share t.quantity;
        cost_reduction = times cost t.quantity;
        legs = reduce_leg t before l after;
      }))

-- The part that `applyClose` and `applyExercised` share, up to the realized profit.
unfoldable pub settle : PositionState → Taken → Throws PositionState
settle s k = do
  unrealized ← sub_assign s.unrealized_option_pnl k.realized
  cost ← sub_assign s.cost_basis k.cost_reduction
  realized_cost ← add_assign s.realized_cost_basis k.cost_reduction
  ok (record s {
    unrealized_option_pnl = unrealized;
    cost_basis = cost;
    realized_cost_basis = realized_cost;
    open_option_legs = k.legs;
  })

-- What a closing trade realizes: the premium is paid or received on top.
unfoldable pub close_gain : OptionBuySell → Cash → Cash → Throws Cash
close_gain OptionBuySell.buy realized premium = minus realized premium
close_gain OptionBuySell.sell realized premium = plus realized premium

unfoldable pub apply_close : PositionState → OptionTrade → Throws PositionState
apply_close s t = do
  found ← find_leg (open_side t.buy_sell) t s.open_option_legs
  k ← take_out s t found
  s' ← settle s k
  gain ← close_gain t.buy_sell k.realized t.premium
  realized ← add_assign s'.realized_pnl gain
  ok (record s' { realized_pnl = realized })

unfoldable pub apply_exercised : PositionState → OptionTrade → Throws PositionState
apply_exercised s t = do
  found ← find_leg (open_side t.buy_sell) t s.open_option_legs
  k ← take_out s t found
  s' ← settle s k
  realized ← add_assign s'.realized_pnl k.realized
  ok (record s' { realized_pnl = realized })

-- How the fold of trades fails: an exception, or the error value of `PnLResult`.
pub data Failure : Type 0 where
  thrown : Exception → Failure
  inconsistent_contract_size : Failure

abbrev pub Folds : Type 0 → Type 0
Folds A = Result Failure A

abbrev pub lift : {A : Type 0} → Throws A → Folds A
lift (ok a) = ok a
lift (err e) = err (thrown e)

-- The contract size is taken from the first trade that has one, and checked afterwards.
unfoldable pub check_contract_size : PositionState → ℤ → Folds PositionState
check_contract_size s size =
    if eqb_ℤ s.contract_size (pos 0)
    then ok (record s { contract_size = size })
    else if eqb_ℤ s.contract_size size
    then ok s
    else err inconsistent_contract_size

-- The `switch` over the action.
unfoldable pub dispatch :
    TransactionOptionAction → PositionState → OptionTrade → Throws PositionState
dispatch TransactionOptionAction.opening s t = apply_open s t
dispatch TransactionOptionAction.roll_open s t = apply_open s t
dispatch TransactionOptionAction.closing s t = apply_close s t
dispatch TransactionOptionAction.roll_close s t = apply_close s t
dispatch TransactionOptionAction.exercised s t = apply_exercised s t

unfoldable pub apply_option : PositionState → OptionTrade → Folds PositionState
apply_option s t = do
  s' ← check_contract_size s t.contract_size
  fees ← lift (add_assign s'.fees t.fees)
  lift (dispatch t.action (record s' { fees = fees }) t)
