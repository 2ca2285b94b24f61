-- ===== src/Finance/Pnl/Currency.antt =====
-- The currency invariant of a position: all its amounts are in one currency or in none.
use molar_tracker.Base.{List, [], ◌∷◌}
use molar_tracker.Common.Currency.{Currency}
use molar_tracker.Common.Cash.Compatible.{Compatible}
use molar_tracker.Finance.Pnl.State.{StockTrade, OptionTrade, OpenOptionLeg, PositionState}

module _ (c : Currency) where
  abbrev pub LegsInCurrency : List OpenOptionLeg → Type 0
  LegsInCurrency [] = Unit
  LegsInCurrency (l ∷ ls) = Compatible c l.strike_price × LegsInCurrency ls

  pub record InCurrency (s : PositionState) : Type 0 where
    pub cost : Compatible c s.cost_basis
    pub realized : Compatible c s.realized_pnl
    pub realized_cost : Compatible c s.realized_cost_basis
    pub unrealized : Compatible c s.unrealized_option_pnl
    pub fees : Compatible c s.fees
    pub legs : LegsInCurrency s.open_option_legs

  pub record StockInCurrency (t : StockTrade) : Type 0 where
    pub unit_price : Compatible c t.unit_price
    pub fees : Compatible c t.fees

  pub record OptionInCurrency (t : OptionTrade) : Type 0 where
    pub strike : Compatible c t.strike
    pub premium : Compatible c t.premium
    pub fees : Compatible c t.fees
