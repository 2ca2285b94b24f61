-- ===== src/Finance/Pnl/Stock/Reducing.antt =====
-- A stock trade against the open position (`apply_reducing`, `apply_remainder`).
use molar_tracker.Base.{◌≡◌, refl, false, if◌then◌else◌, arith, Yields, ◌∙◌, ap}
use molar_tracker.Base.Int.{ℤ, ◌+ℤ◌, ◌-ℤ◌, neg}
use molar_tracker.Common.Currency.{Currency}
use molar_tracker.Common.Cash.{times}
use molar_tracker.Common.Cash.Compatible.{
  add_assign-Compatible, sub_assign-Compatible, minus-Compatible, over-Compatible,
}
use molar_tracker.Common.Quantity.{
  Quantity, Doubles, factor, is_zero, is_positive, abs_quantity, sub, min_quantity, mul_div,
  mul_quantity,
}
use molar_tracker.Finance.Pnl.State.{StockTrade, PositionState}
use molar_tracker.Finance.Pnl.Currency.{InCurrency, StockInCurrency}
use molar_tracker.Finance.Pnl.Stock.{apply_remainder, apply_reducing}
use molar_tracker.Finance.Pnl.Stock.Quantities.{left_quantity, final_quantity, abs_quantity-is_zero}
use molar_tracker.Finance.Pnl.Stock.Opening.{KeepsOptions}

-- The part of the open quantity that a reducing trade closes, and the average cost that it is
-- closed at.
abbrev pub closed_part : Doubles → PositionState → StockTrade → Quantity
closed_part d s t = min_quantity d (abs_quantity t.quantity) (abs_quantity s.open_quantity)

abbrev pub average : PositionState → ℤ
average s = mul_div s.cost_basis.amount factor (abs_quantity s.open_quantity).value

-- What is left of the trade once the position is closed.
abbrev pub excess : Doubles → PositionState → StockTrade → Quantity
excess d s t = sub (abs_quantity t.quantity) (closed_part d s t)

-- A trade against the position realizes the difference of price and average cost on the part that
-- it closes, at a cost that leaves the cost basis; an excess opens a position at its own price.
pub record Reducing (c : Currency) (d : Doubles) (s : PositionState) (t : StockTrade)
    (s' : PositionState) : Type 0 where
  pub currency : InCurrency c s'
  pub keeps : KeepsOptions s s'
  pub fees : s'.fees ≡ s.fees
  pub quantity :
      s'.open_quantity
      ≡ final_quantity
          (is_positive d s.open_quantity)
          (is_positive d t.quantity)
          s.open_quantity
          t.quantity
          (closed_part d s t)
  pub realized :
      s'.realized_pnl.amount
      ≡ s.realized_pnl.amount
        +ℤ mul_quantity (t.unit_price.amount +ℤ neg (average s)) (closed_part d s t)
  pub realized_cost :
      s'.realized_cost_basis.amount
      ≡ s.realized_cost_basis.amount +ℤ mul_quantity (average s) (closed_part d s t)
  pub cost : s'.cost_basis.amount ≡ (
      if is_zero (excess d s t)
      then s.cost_basis.amount -ℤ mul_quantity (average s) (closed_part d s t)
      else mul_quantity t.unit_price.amount (excess d s t))

-- The state between the two steps of a reducing trade, before its excess is looked at.
record Reduced (c : Currency) (d : Doubles) (s : PositionState) (t : StockTrade) (r : PositionState)
    : Type 0 where
  currency : InCurrency c r
  keeps : KeepsOptions s r
  fees : r.fees ≡ s.fees
  quantity :
      r.open_quantity
      ≡ left_quantity (is_positive d s.open_quantity) s.open_quantity (closed_part d s t)
  realized :
      r.realized_pnl.amount
      ≡ s.realized_pnl.amount
        +ℤ mul_quantity (t.unit_price.amount +ℤ neg (average s)) (closed_part d s t)
  realized_cost :
      r.realized_cost_basis.amount
      ≡ s.realized_cost_basis.amount +ℤ mul_quantity (average s) (closed_part d s t)
  cost : r.cost_basis.amount ≡ s.cost_basis.amount -ℤ mul_quantity (average s) (closed_part d s t)

module _ (c : Currency) (d : Doubles) where
  apply_remainder-Reducing :
      (s : PositionState) (t : StockTrade) (r : PositionState)
      → StockInCurrency c t
      → Reduced c d s t r
      → Reducing c d s t (apply_remainder d r t (excess d s t))
  unfolding apply_remainder times
  apply_remainder-Reducing s t r ht h = ground arith

  pub apply_reducing-Reducing :
      (s : PositionState) (t : StockTrade)
      → InCurrency c s
      → StockInCurrency c t
      → is_zero s.open_quantity ≡ false
      → Yields (apply_reducing d s t) (Reducing c d s t)
  unfolding apply_reducing times
  apply_reducing-Reducing s t hs ht nz =
      let q = closed_part d s t in
      let avg =
        over-Compatible c s.cost_basis (abs_quantity s.open_quantity) hs.cost
          (abs_quantity-is_zero s.open_quantity ∙ nz) in
      let gain = minus-Compatible c t.unit_price avg.value ht.unit_price avg.holds.0 in
      let realized =
        add_assign-Compatible c s.realized_pnl (times gain.value (closed_part d s t)) hs.realized
          gain.holds.0 in
      let realized_cost =
        add_assign-Compatible c s.realized_cost_basis (times avg.value (closed_part d s t))
          hs.realized_cost avg.holds.0 in
      let cost =
        sub_assign-Compatible c s.cost_basis (times avg.value (closed_part d s t)) hs.cost
          avg.holds.0 in
      let avg_gain : gain.value.amount ≡ t.unit_price.amount +ℤ neg (average s) =
        rw avg.holds.1 at gain.holds.1 in
      rw (avg.returned, gain.returned, realized.returned, realized_cost.returned, cost.returned)
        (record {
          value = _;
          returned = refl;
          holds = apply_remainder-Reducing s t _ ht (record {
            currency = record {
              cost = cost.holds.0;
              realized = realized.holds.0;
              realized_cost = realized_cost.holds.0;
              unrealized = hs.unrealized;
              fees = hs.fees;
              legs = hs.legs;
            };
            keeps = record { unrealized = refl; contract_size = refl; legs = refl };
            fees = refl;
            quantity = refl;
            realized =
                realized.holds.1 ∙ ap (λ x. s.realized_pnl.amount +ℤ mul_quantity x q) avg_gain;
            realized_cost =
                realized_cost.holds.1
                ∙ ap (λ x. s.realized_cost_basis.amount +ℤ mul_quantity x q) avg.holds.1;
            cost = cost.holds.1 ∙ ap (λ x. s.cost_basis.amount -ℤ mul_quantity x q) avg.holds.1;
          });
        })
