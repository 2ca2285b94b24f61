-- ===== src/Finance/Pnl/Stock/Effect.antt =====
-- What a stock trade does to a position whose amounts are in one currency.
use molar_tracker.Base.{
  ◌≡◌, refl, true, false, if◌then◌else◌, arith, Bool-cases, inl, inr, Yields, ◌∙◌, ap,
  Yields-weaken,
}
use molar_tracker.Base.Int.{pos, ◌+ℤ◌, int_laws}
use molar_tracker.Common.Currency.{Currency}
use molar_tracker.Common.Cash.{Cash}
use molar_tracker.Common.Cash.Compatible.{Compatible, add_assign-Compatible}
use molar_tracker.Common.Quantity.{Quantity, Doubles, is_zero, is_positive, add}
use molar_tracker.Finance.Pnl.State.{StockTrade, PositionState}
use molar_tracker.Finance.Pnl.Currency.{InCurrency, StockInCurrency}
use molar_tracker.Finance.Pnl.Stock.{
  same, apply_opening, apply_reducing, same_direction, apply_stock,
}
use molar_tracker.Finance.Pnl.Stock.Quantities.{final_quantity-eq-sum}
use molar_tracker.Finance.Pnl.Stock.Opening.{KeepsOptions, Opening, apply_opening-Opening}
use molar_tracker.Finance.Pnl.Stock.Reducing.{Reducing, apply_reducing-Reducing}

-- What a stock trade amounts to, in any case.
pub record StockEffect (c : Currency) (s : PositionState) (t : StockTrade) (s' : PositionState)
    : Type 0 where
  pub currency : InCurrency c s'
  pub keeps : KeepsOptions s s'
  pub fees : s'.fees.amount ≡ s.fees.amount +ℤ t.fees.amount
  pub quantity : s'.open_quantity.value ≡ s.open_quantity.value +ℤ t.quantity.value

module _ (c : Currency) (d : Doubles) where
  is_zero-value : (q : Quantity) → is_zero q ≡ true → q.value ≡ pos 0
  unfolding is_zero
  is_zero-value q h = ground arith

  same_direction-false :
      (s : PositionState) (t : StockTrade)
      → same_direction d s t ≡ false
      → (is_zero s.open_quantity ≡ false)
        × (same (is_positive d s.open_quantity) (is_positive d t.quantity) ≡ false)
  same_direction-false s t h = ground arith

  -- The state once the fees are booked.
  abbrev booked : PositionState → Cash → PositionState
  booked s f = record s { fees = f }

  booked-InCurrency :
      (s : PositionState) (f : Cash) → InCurrency c s → Compatible c f → InCurrency c (booked s f)
  booked-InCurrency s f hs hf = record {
    cost = hs.cost;
    realized = hs.realized;
    realized_cost = hs.realized_cost;
    unrealized = hs.unrealized;
    fees = hf;
    legs = hs.legs;
  }

  unmoved :
      (s : PositionState) (t : StockTrade) (f : Cash)
      → InCurrency c (booked s f)
      → f.amount ≡ s.fees.amount +ℤ t.fees.amount
      → is_zero t.quantity ≡ true
      → StockEffect c s t (booked s f)
  unmoved s t f hs paid z = record {
    currency = hs;
    keeps = record { unrealized = refl; contract_size = refl; legs = refl };
    fees = paid;
    quantity = rw (is_zero-value t.quantity z) (omega int_laws);
  }

  opened :
      (s : PositionState) (t : StockTrade) (f : Cash) (r : PositionState)
      → f.amount ≡ s.fees.amount +ℤ t.fees.amount
      → Opening c (booked s f) t r
      → StockEffect c s t r
  unfolding add
  opened s t f r paid o = record {
    currency = o.currency;
    keeps = record {
      unrealized = o.keeps.unrealized;
      contract_size = o.keeps.contract_size;
      legs = o.keeps.legs;
    };
    fees = ap (λ x. x.amount) o.fees ∙ paid;
    quantity = ap (λ x. x.value) o.quantity;
  }

  reduced :
      (s : PositionState) (t : StockTrade) (f : Cash) (r : PositionState)
      → f.amount ≡ s.fees.amount +ℤ t.fees.amount
      → is_zero t.quantity ≡ false
      → same_direction d s t ≡ false
      → Reducing c d (booked s f) t r
      → StockEffect c s t r
  reduced s t f r paid zt opposite o =
      let (zo, signs) = same_direction-false s t opposite in
      record {
        currency = o.currency;
        keeps = record {
          unrealized = o.keeps.unrealized;
          contract_size = o.keeps.contract_size;
          legs = o.keeps.legs;
        };
        fees = ap (λ x. x.amount) o.fees ∙ paid;
        quantity =
            ap (λ x. x.value) o.quantity
            ∙ final_quantity-eq-sum d s.open_quantity t.quantity signs zo zt;
      }

  moved :
      (s : PositionState) (t : StockTrade) (f : Cash)
      → InCurrency c (booked s f)
      → StockInCurrency c t
      → f.amount ≡ s.fees.amount +ℤ t.fees.amount
      → is_zero t.quantity ≡ false
      → Yields
          (if same_direction d (booked s f) t
            then apply_opening (booked s f) t
            else apply_reducing d (booked s f) t)
          (StockEffect c s t)
  moved s t f hs ht paid z = elim (Bool-cases (same_direction d s t)) [
    | inl e ↦ rw e (
        Yields-weaken (StockEffect c s t) (apply_opening-Opening c (booked s f) t hs ht)
          (λ r. opened s t f r paid))
    | inr e ↦ rw e (
        Yields-weaken (StockEffect c s t)
          (apply_reducing-Reducing c d (booked s f) t hs ht (same_direction-false s t e).0)
          (λ r. reduced s t f r paid z e))
  ]

  -- A stock trade in the position's currency never throws: it adds its quantity and its fees, and
  -- leaves the option side of the position alone.
  pub apply_stock-StockEffect :
      (s : PositionState) (t : StockTrade)
      → InCurrency c s
      → StockInCurrency c t
      → Yields (apply_stock d s t) (StockEffect c s t)
  unfolding apply_stock
  apply_stock-StockEffect s t hs ht =
      let f = add_assign-Compatible c s.fees t.fees hs.fees ht.fees in
      let hs' = booked-InCurrency s f.value hs f.holds.0 in
      rw f.returned (elim (Bool-cases (is_zero t.quantity)) [
        | inl z ↦
            rw z
              (record { value = _; returned = refl; holds = unmoved s t f.value hs' f.holds.1 z })
        | inr z ↦ rw z (moved s t f.value hs' ht f.holds.1 z)
      ])
