-- ===== src/Finance/Pnl/Stock/Opening.antt =====
-- A stock trade that opens a position or adds to it (`apply_opening`).
use molar_tracker.Base.{◌≡◌, refl, Yields}
use molar_tracker.Base.Int.{◌+ℤ◌}
use molar_tracker.Common.Currency.{Currency}
use molar_tracker.Common.Cash.{times}
use molar_tracker.Common.Cash.Compatible.{add_assign-Compatible}
use molar_tracker.Common.Quantity.{abs_quantity, add, mul_quantity}
use molar_tracker.Finance.Pnl.State.{StockTrade, PositionState}
use molar_tracker.Finance.Pnl.Currency.{InCurrency, StockInCurrency}
use molar_tracker.Finance.Pnl.Stock.{apply_opening}

-- The fields that a stock trade leaves alone.
pub record KeepsOptions (s s' : PositionState) : Type 0 where
  pub unrealized : s'.unrealized_option_pnl ≡ s.unrealized_option_pnl
  pub contract_size : s'.contract_size ≡ s.contract_size
  pub legs : s'.open_option_legs ≡ s.open_option_legs

-- A trade that opens a position or adds to it: its price enters the cost basis, nothing is realized.
pub record Opening (c : Currency) (s : PositionState) (t : StockTrade) (s' : PositionState)
    : Type 0 where
  pub currency : InCurrency c s'
  pub keeps : KeepsOptions s s'
  pub fees : s'.fees ≡ s.fees
  pub quantity : s'.open_quantity ≡ add s.open_quantity t.quantity
  pub cost :
      s'.cost_basis.amount
      ≡ s.cost_basis.amount +ℤ mul_quantity t.unit_price.amount (abs_quantity t.quantity)
  pub realized : s'.realized_pnl ≡ s.realized_pnl
  pub realized_cost : s'.realized_cost_basis ≡ s.realized_cost_basis

module _ (c : Currency) where
  pub apply_opening-Opening :
      (s : PositionState) (t : StockTrade)
      → InCurrency c s
      → StockInCurrency c t
      → Yields (apply_opening s t) (Opening c s t)
  unfolding apply_opening times
  apply_opening-Opening s t hs ht =
      let cost =
        add_assign-Compatible c s.cost_basis (times t.unit_price (abs_quantity t.quantity)) hs.cost
          ht.unit_price in
      rw cost.returned (record {
        value = _;
        returned = refl;
        holds = record {
          currency = record {
            cost = cost.holds.0;
            realized = hs.realized;
            realized_cost = hs.realized_cost;
            unrealized = hs.unrealized;
            fees = hs.fees;
            legs = hs.legs;
          };
          keeps = record { unrealized = refl; contract_size = refl; legs = refl };
          fees = refl;
          quantity = refl;
          cost = cost.holds.1;
          realized = refl;
          realized_cost = refl;
        };
      })
