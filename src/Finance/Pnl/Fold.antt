-- ===== src/Finance/Pnl/Fold.antt =====
-- The fold over a position's events, and the snapshot of a state (`foldEvents`, `snapshot` and the
-- methods of `PositionPnl` in pnl.cpp).
pub mod Totals
use molar_tracker.Base.{
  List, [], ◌∷◌, Bool, true, false, if◌then◌else◌, Option, none, some, ok, ◌>>=◌,
}
use molar_tracker.Base.Int.{ℤ, pos}
use molar_tracker.Common.Exception.{Throws}
use molar_tracker.Common.Cash.{Cash, plus, minus, negate, times, over, add_assign, max_cash}
use molar_tracker.Common.Quantity.{Quantity, Doubles, is_zero, abs_quantity, scale}
use molar_tracker.Finance.Pnl.State.{
  OptionType, OptionBuySell, Trade, PositionEvent, OpenOptionLeg, PositionState,
}
use molar_tracker.Finance.Pnl.Stock.{apply_stock}
use molar_tracker.Finance.Pnl.Option.{Folds, lift, apply_option}

module _ (d : Doubles) where
  -- One round of the loop.
  unfoldable pub apply_trade : PositionState → Trade → Folds PositionState
  apply_trade s (Trade.stock t) = lift (apply_stock d s t)
  apply_trade s (Trade.option t) = apply_option s t

  unfoldable pub fold_events : PositionState → List PositionEvent → Folds PositionState
  unfolding apply_trade
  fold_events s [] = ok s
  fold_events s (e ∷ es) = do s' ← apply_trade s e.trade; fold_events s' es

pub record PositionPnl : Type 0 where
  pub quantity : Quantity
  pub cost_basis : Cash
  pub realized_pnl : Cash
  pub realized_cost_basis : Cash
  pub unrealized_pnl : Cash
  pub fees : Cash

-- The gain of exercising a leg at the mark price, before its side is looked at.
unfoldable pub leg_value : OptionType → Cash → OpenOptionLeg → ℤ → Throws Cash
leg_value OptionType.call mark l size = do
  spread ← minus mark l.strike_price
  max_cash (record { currency = mark.currency; amount = pos 0 }) (times spread (scale l.qty size))
leg_value OptionType.put mark l size = do
  spread ← minus l.strike_price mark
  max_cash (record { currency = mark.currency; amount = pos 0 }) (times spread (scale l.qty size))

abbrev pub signed_value : OptionBuySell → Cash → Cash
signed_value OptionBuySell.buy v = v
signed_value OptionBuySell.sell v = negate v

unfoldable pub add_legs : Cash → ℤ → List OpenOptionLeg → Cash → Throws Cash
add_legs mark size [] acc = ok acc
add_legs mark size (l ∷ ls) acc = do
  v ← leg_value l.option_type mark l size
  acc' ← add_assign acc (signed_value l.buy_sell v)
  add_legs mark size ls acc'

-- The unrealized profit of the stock part at the mark price.
unfoldable pub add_stock_part : PositionState → Cash → Cash → Throws Cash
add_stock_part s mark acc = if is_zero s.open_quantity then ok acc else (do
  avg ← over s.cost_basis (abs_quantity s.open_quantity)
  gain ← minus mark avg
  add_assign acc (times gain s.open_quantity))

unfoldable pub unrealized_at : PositionState → Option Cash → Throws Cash
unfolding add_stock_part add_legs leg_value
unrealized_at s none = ok s.unrealized_option_pnl
unrealized_at s (some mark) = do
  acc ← add_stock_part s mark s.unrealized_option_pnl
  add_legs mark s.contract_size s.open_option_legs acc

unfoldable pub snapshot : PositionState → Option Cash → Throws PositionPnl
unfolding unrealized_at
snapshot s mark = do
  unrealized ← unrealized_at s mark
  ok (record {
    quantity = s.open_quantity;
    cost_basis = s.cost_basis;
    realized_pnl = s.realized_pnl;
    realized_cost_basis = s.realized_cost_basis;
    unrealized_pnl = unrealized;
    fees = s.fees;
  })

unfoldable pub get_average_cost : PositionPnl → Throws Cash
get_average_cost p =
    if is_zero p.quantity
    then ok (record { currency = p.cost_basis.currency; amount = pos 0 })
    else over p.cost_basis p.quantity

unfoldable pub total_pnl : PositionPnl → Throws Cash
total_pnl p = plus p.realized_pnl p.unrealized_pnl

unfoldable pub get_market_value : PositionPnl → Throws Cash
unfolding total_pnl
get_market_value p = do total ← total_pnl p; plus p.cost_basis total
