-- ===== src/Finance/Pnl/Option/Settle.antt =====
-- The parts of a closing trade: what it takes out, and how that is settled.
use molar_tracker.Base.{◌≡◌, refl, if◌then◌else◌, none, some, List, inl, inr, Bool-cases, Yields}
use molar_tracker.Base.Int.{ℤ, ◌+ℤ◌, ◌-ℤ◌, neg, int_laws}
use molar_tracker.Common.Currency.{Currency}
use molar_tracker.Common.Cash.{Cash, times}
use molar_tracker.Common.Cash.Compatible.{
  Compatible, add_assign-Compatible, sub_assign-Compatible, minus-Compatible, plus-Compatible,
  over-Compatible, no_cash-Compatible,
}
use molar_tracker.Common.Quantity.{is_zero}
use molar_tracker.Finance.Pnl.State.{
  OptionBuySell, OptionTrade, OpenOptionLeg, PositionState, open_side,
}
use molar_tracker.Finance.Pnl.Currency.{InCurrency, LegsInCurrency}
use molar_tracker.Finance.Pnl.Option.{Found, Taken, take_out, settle, close_gain}
use molar_tracker.Finance.Pnl.Option.Legs.{trade_key, first_leg}
use molar_tracker.Finance.Pnl.Option.Accounts.{closed_legs}

-- The premium that changes hands: paid when buying, received when selling.
abbrev pub premium_flow : OptionBuySell → ℤ → ℤ
premium_flow OptionBuySell.buy p = neg p
premium_flow OptionBuySell.sell p = p

-- The profit of the option part, realized or not.
abbrev pub option_profit : PositionState → ℤ
option_profit s = s.realized_pnl.amount +ℤ s.unrealized_option_pnl.amount

abbrev pub all_cost : PositionState → ℤ
all_cost s = s.cost_basis.amount +ℤ s.realized_cost_basis.amount

-- What every option trade leaves alone, and the profit that it brings.
pub record OptionEffect (c : Currency) (s : PositionState) (profit : ℤ) (legs : List OpenOptionLeg)
    (s' : PositionState) : Type 0 where
  pub currency : InCurrency c s'
  pub quantity : s'.open_quantity ≡ s.open_quantity
  pub fees : s'.fees ≡ s.fees
  pub contract_size : s'.contract_size ≡ s.contract_size
  pub legs_after : s'.open_option_legs ≡ legs
  pub profits : option_profit s' ≡ option_profit s +ℤ profit

-- The legs that a closing trade leaves: an empty leg is found and left alone.
abbrev pub legs_left : OptionTrade → List OpenOptionLeg → Found → List OpenOptionLeg
legs_left t ls none = ls
legs_left t ls (some (before, l, after)) =
    if is_zero l.qty then ls else closed_legs t ls (some (before, l, after))

-- The same, after the search of a closing trade.
abbrev pub legs_closed : PositionState → OptionTrade → List OpenOptionLeg
legs_closed s t =
    legs_left t s.open_option_legs
      (first_leg (trade_key (open_side t.buy_sell) t) s.open_option_legs)

module _ (c : Currency) where
  pub record TakenInCurrency (legs : List OpenOptionLeg) (k : Taken) : Type 0 where
    pub realized : Compatible c k.realized
    pub cost : Compatible c k.cost_reduction
    pub left : k.legs ≡ legs

  pub take_out-Compatible :
      (s : PositionState) (t : OptionTrade) (f : Found)
      → InCurrency c s
      → Yields (take_out s t f) (TakenInCurrency (legs_left t s.open_option_legs f))
  unfolding take_out times
  take_out-Compatible s t none hs = record {
    value = _;
    returned = refl;
    holds = record { realized = no_cash-Compatible c; cost = no_cash-Compatible c; left = refl };
  }
  take_out-Compatible s t (some (before, l, after)) hs = elim (Bool-cases (is_zero l.qty)) [
    | inl z ↦ rw z (record {
      value = _;
      returned = refl;
      holds = record { realized = no_cash-Compatible c; cost = no_cash-Compatible c; left = refl };
    })
    | inr z ↦
        let share = over-Compatible c s.unrealized_option_pnl l.qty hs.unrealized z in
        let cost = over-Compatible c s.cost_basis l.qty hs.cost z in
        rw (z, share.returned, cost.returned)
          (record {
            value = _;
            returned = refl;
            holds = record { realized = share.holds.0; cost = cost.holds.0; left = refl };
          })
  ]

  -- What `settle` leaves: the cost moves from the open to the realized cost basis.
  pub record Settled (s : PositionState) (k : Taken) (r : PositionState) : Type 0 where
    pub currency : InCurrency c r
    pub quantity : r.open_quantity ≡ s.open_quantity
    pub fees : r.fees ≡ s.fees
    pub contract_size : r.contract_size ≡ s.contract_size
    pub legs_after : r.open_option_legs ≡ k.legs
    pub realized : r.realized_pnl ≡ s.realized_pnl
    pub unrealized :
        r.unrealized_option_pnl.amount ≡ s.unrealized_option_pnl.amount -ℤ k.realized.amount
    pub cost : all_cost r ≡ all_cost s

  move_cost : (a b d x y : ℤ) → x ≡ a -ℤ d → y ≡ b +ℤ d → x +ℤ y ≡ a +ℤ b
  move_cost a b d x y e f = rw (e, f) (omega int_laws)

  pub settle-Settled :
      (s : PositionState) (k : Taken)
      → InCurrency c s
      → Compatible c k.realized
      → Compatible c k.cost_reduction
      → LegsInCurrency c k.legs
      → Yields (settle s k) (Settled s k)
  unfolding settle
  settle-Settled s k hs hr hk hl =
      let unrealized =
        sub_assign-Compatible c s.unrealized_option_pnl k.realized hs.unrealized hr in
      let cost = sub_assign-Compatible c s.cost_basis k.cost_reduction hs.cost hk in
      let booked =
        add_assign-Compatible c s.realized_cost_basis k.cost_reduction hs.realized_cost hk in
      rw (unrealized.returned, cost.returned, booked.returned)
        (record {
          value = _;
          returned = refl;
          holds = record {
            currency = record {
              cost = cost.holds.0;
              realized = hs.realized;
              realized_cost = booked.holds.0;
              unrealized = unrealized.holds.0;
              fees = hs.fees;
              legs = hl;
            };
            quantity = refl;
            fees = refl;
            contract_size = refl;
            legs_after = refl;
            realized = refl;
            unrealized = unrealized.holds.1;
            cost = move_cost _ _ _ _ _ cost.holds.1 booked.holds.1;
          };
        })

  -- The realized profit is raised by `gain`, with the state settled before.
  abbrev pub realize : PositionState → Cash → PositionState
  realize r realized = record r { realized_pnl = realized }

  gain_total : (p u g x u' flow : ℤ) → u' ≡ u -ℤ x → g ≡ x +ℤ flow → p +ℤ g +ℤ u' ≡ p +ℤ u +ℤ flow
  gain_total p u g x u' flow e f = rw (e, f) (omega int_laws)

  pub realize-Effect :
      (s r : PositionState) (k : Taken) (gain realized : Cash) (flow : ℤ)
      → Settled s k r
      → gain.amount ≡ k.realized.amount +ℤ flow
      → Compatible c realized
      → realized.amount ≡ r.realized_pnl.amount +ℤ gain.amount
      → OptionEffect c s flow k.legs (realize r realized)
  realize-Effect s r k gain realized flow h hg hc hp = record {
    currency = record {
      cost = h.currency.cost;
      realized = hc;
      realized_cost = h.currency.realized_cost;
      unrealized = h.currency.unrealized;
      fees = h.currency.fees;
      legs = h.currency.legs;
    };
    quantity = h.quantity;
    fees = h.fees;
    contract_size = h.contract_size;
    legs_after = h.legs_after;
    profits =
        rw (hp, h.realized)
          (gain_total s.realized_pnl.amount s.unrealized_option_pnl.amount gain.amount
            k.realized.amount r.unrealized_option_pnl.amount flow h.unrealized hg);
  }

  pub close_gain-Compatible :
      (side : OptionBuySell) (a p : Cash)
      → Compatible c a
      → Compatible c p
      → Yields
          (close_gain side a p)
          (λ g. Compatible c g × (g.amount ≡ a.amount +ℤ premium_flow side p.amount))
  unfolding close_gain
  close_gain-Compatible OptionBuySell.buy a p ha hp = minus-Compatible c a p ha hp
  close_gain-Compatible OptionBuySell.sell a p ha hp = plus-Compatible c a p ha hp
