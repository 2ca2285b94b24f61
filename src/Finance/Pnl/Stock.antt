-- ===== src/Finance/Pnl/Stock.antt =====
-- A stock trade applied to a position's state (`apply` for `StockTrade` in pnl.cpp). The `double`
-- comparisons are a parameter.
pub mod Quantities
pub mod Opening
pub mod Reducing
pub mod Effect
use molar_tracker.Base.{Bool, true, false, ◌||◌, if◌then◌else◌, ok, ◌>>=◌}
use molar_tracker.Common.Exception.{Throws}
use molar_tracker.Common.Cash.{minus, times, over, add_assign, sub_assign}
use molar_tracker.Common.Quantity.{
  Quantity, Doubles, is_zero, is_positive, abs_quantity, add, sub, negate, min_quantity,
}
use molar_tracker.Finance.Pnl.State.{StockTrade, PositionState}

-- `==` of two `bool`s.
abbrev pub same : Bool → Bool → Bool
same true true = true
same false false = true
same _ _ = false

-- The branch that opens a position or adds to it.
unfoldable pub apply_opening : PositionState → StockTrade → Throws PositionState
apply_opening s t = do
  cost ← add_assign s.cost_basis (times t.unit_price (abs_quantity t.quantity))
  ok (record s { cost_basis = cost; open_quantity = add s.open_quantity t.quantity })

module _ (d : Doubles) where
  -- The part of a reducing trade that opens a position in the other direction.
  unfoldable pub apply_remainder : PositionState → StockTrade → Quantity → PositionState
  apply_remainder s t remainder = if is_zero remainder then s else record s {
    cost_basis = times t.unit_price remainder;
    open_quantity = if is_positive d t.quantity then remainder else negate remainder;
  }

  -- The branch that reduces, closes or flips a position.
  unfoldable pub apply_reducing : PositionState → StockTrade → Throws PositionState
  apply_reducing s t = do
    avg_cost ← over s.cost_basis (abs_quantity s.open_quantity)
    let closed = min_quantity d (abs_quantity t.quantity) (abs_quantity s.open_quantity)
    gain ← minus t.unit_price avg_cost
    realized ← add_assign s.realized_pnl (times gain closed)
    realized_cost ← add_assign s.realized_cost_basis (times avg_cost closed)
    cost ← sub_assign s.cost_basis (times avg_cost closed)
    let left = sub s.open_quantity (if is_positive d s.open_quantity then closed else negate closed)
    ok (
        apply_remainder
          (record s {
            realized_pnl = realized;
            realized_cost_basis = realized_cost;
            cost_basis = cost;
            open_quantity = left;
          })
          t (sub (abs_quantity t.quantity) closed))

  abbrev pub same_direction : PositionState → StockTrade → Bool
  same_direction s t =
      is_zero s.open_quantity || same (is_positive d s.open_quantity) (is_positive d t.quantity)

  unfoldable pub apply_stock : PositionState → StockTrade → Throws PositionState
  apply_stock s t = do
    fees ← add_assign s.fees t.fees
    let s' = record s { fees = fees }
    if is_zero t.quantity
        then ok s'
        else if same_direction s t
        then apply_opening s' t
        else apply_reducing s' t
