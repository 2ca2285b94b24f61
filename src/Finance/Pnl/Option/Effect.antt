-- ===== src/Finance/Pnl/Option/Effect.antt =====
-- What an option trade does to a position whose amounts are in one currency.
use molar_tracker.Base.{◌≡◌, refl, ◌∙◌, List, arith, Yields, Yields-weaken, ok, ◌>>=◌, Yields-ok}
use molar_tracker.Base.Int.{ℤ, pos, ◌+ℤ◌, ◌-ℤ◌, neg, int_laws}
use molar_tracker.Common.Currency.{Currency}
use molar_tracker.Common.Cash.{Cash, times, add_assign}
use molar_tracker.Common.Cash.Compatible.{Compatible, add_assign-Compatible, sub_assign-Compatible}
use molar_tracker.Common.Quantity.{scale}
use molar_tracker.Finance.Pnl.State.{
  OptionBuySell, OptionTrade, OpenOptionLeg, PositionState, open_side,
}
use molar_tracker.Finance.Pnl.Currency.{InCurrency, OptionInCurrency, LegsInCurrency}
use molar_tracker.Finance.Pnl.Option.{
  Taken, add_leg, open_cash, apply_open, take_out, settle, apply_close, apply_exercised, find_leg,
}
use molar_tracker.Finance.Pnl.Option.Legs.{trade_key, first_leg, find_leg-eq-first_leg}
use molar_tracker.Finance.Pnl.Option.Distinct.{add_leg-LegsInCurrency, closed_legs-LegsInCurrency}
use molar_tracker.Finance.Pnl.Option.Settle.{
  OptionEffect, premium_flow, all_cost, legs_left, TakenInCurrency, Settled, take_out-Compatible,
  settle-Settled, realize, realize-Effect, close_gain-Compatible, legs_closed,
}

module _ (c : Currency) where
  open_total : (p u u' a : ℤ) → u' ≡ u +ℤ a → p +ℤ u' ≡ p +ℤ u +ℤ a
  open_total p u u' a e = rw e (omega int_laws)

  sub_as_add : (a b : ℤ) → a -ℤ b ≡ a +ℤ neg b
  sub_as_add a b = omega int_laws

  opened_effect :
      (s : PositionState) (t : OptionTrade) (unrealized cost : Cash) (flow : ℤ)
      → InCurrency c s
      → Compatible c unrealized
      → Compatible c cost
      → unrealized.amount ≡ s.unrealized_option_pnl.amount +ℤ flow
      → OptionEffect c s flow s.open_option_legs
          (record s { unrealized_option_pnl = unrealized; cost_basis = cost })
  opened_effect s t unrealized cost flow hs hu hc e = record {
    currency = record {
      cost = hc;
      realized = hs.realized;
      realized_cost = hs.realized_cost;
      unrealized = hu;
      fees = hs.fees;
      legs = hs.legs;
    };
    quantity = refl;
    fees = refl;
    contract_size = refl;
    legs_after = refl;
    profits =
        open_total s.realized_pnl.amount s.unrealized_option_pnl.amount unrealized.amount flow e;
  }

  -- Opening books the premium and the leg; nothing is realized.
  open_cash-Effect :
      (s : PositionState) (t : OptionTrade) (side : OptionBuySell)
      → InCurrency c s
      → OptionInCurrency c t
      → Yields
          (open_cash s t side)
          (OptionEffect c s (premium_flow side t.premium.amount) s.open_option_legs)
  unfolding open_cash times
  open_cash-Effect s t OptionBuySell.buy hs ht =
      let u = sub_assign-Compatible c s.unrealized_option_pnl t.premium hs.unrealized ht.premium in
      let k = add_assign-Compatible c s.cost_basis t.premium hs.cost ht.premium in
      rw (u.returned, k.returned)
        (Yields-ok _ (
          opened_effect s t u.value k.value _ hs u.holds.0 k.holds.0
            (u.holds.1 ∙ sub_as_add s.unrealized_option_pnl.amount t.premium.amount)))
  open_cash-Effect s t OptionBuySell.sell hs ht =
      let u = add_assign-Compatible c s.unrealized_option_pnl t.premium hs.unrealized ht.premium in
      let strike = times t.strike (scale t.quantity s.contract_size) in
      let k = add_assign-Compatible c s.cost_basis strike hs.cost ht.strike in
      rw (u.returned, k.returned)
        (Yields-ok _ (opened_effect s t u.value k.value _ hs u.holds.0 k.holds.0 u.holds.1))

  pub apply_open-Effect :
      (s : PositionState) (t : OptionTrade)
      → InCurrency c s
      → OptionInCurrency c t
      → Yields (apply_open s t) (
          OptionEffect c s
            (premium_flow t.buy_sell t.premium.amount)
            (add_leg t s.open_option_legs (first_leg (trade_key t.buy_sell t) s.open_option_legs)))
  unfolding apply_open
  apply_open-Effect s t hs ht =
      let ls = s.open_option_legs in
      let key = trade_key t.buy_sell t in
      rw (find_leg-eq-first_leg c t.buy_sell t ls hs.legs ht.strike) (
        Yields-weaken _
          (open_cash-Effect (record s { open_option_legs = add_leg t ls (first_leg key ls) }) t
            t.buy_sell
            (record {
              cost = hs.cost;
              realized = hs.realized;
              realized_cost = hs.realized_cost;
              unrealized = hs.unrealized;
              fees = hs.fees;
              legs = add_leg-LegsInCurrency c t key ls ht.strike hs.legs;
            })
            ht)
          λ r e. record {
            currency = e.currency;
            quantity = e.quantity;
            fees = e.fees;
            contract_size = e.contract_size;
            legs_after = e.legs_after;
            profits = e.profits;
          })

  legs_left-LegsInCurrency :
      (t : OptionTrade) (ls : List OpenOptionLeg)
      → LegsInCurrency c ls
      → LegsInCurrency c (legs_left t ls (first_leg (trade_key (open_side t.buy_sell) t) ls))
  legs_left-LegsInCurrency t ls h =
      let key = trade_key (open_side t.buy_sell) t in
      ground (arith, closed_legs-LegsInCurrency c t key ls h)

  -- A closing trade and an exercise find the same leg and settle it in the same way.
  record Settlement (s : PositionState) (t : OptionTrade) : Type 0 where
    taken : Taken
    settled : PositionState
    found :
        find_leg (open_side t.buy_sell) t s.open_option_legs
        ≡ ok (first_leg (trade_key (open_side t.buy_sell) t) s.open_option_legs)
    took :
        take_out s t (first_leg (trade_key (open_side t.buy_sell) t) s.open_option_legs) ≡ ok taken
    settles : settle s taken ≡ ok settled
    is_taken : TakenInCurrency c (legs_closed s t) taken
    is_settled : Settled c s taken settled

  settlement :
      (s : PositionState) (t : OptionTrade) → InCurrency c s → OptionInCurrency c t → Settlement s t
  settlement s t hs ht =
      let ls = s.open_option_legs in
      let key = trade_key (open_side t.buy_sell) t in
      let k = take_out-Compatible c s t (first_leg key ls) hs in
      let legs : LegsInCurrency c k.value.legs =
        rw k.holds.left (legs_left-LegsInCurrency t ls hs.legs) in
      let r = settle-Settled c s k.value hs k.holds.realized k.holds.cost legs in
      record {
        taken = k.value;
        settled = r.value;
        found = find_leg-eq-first_leg c (open_side t.buy_sell) t ls hs.legs ht.strike;
        took = k.returned;
        settles = r.returned;
        is_taken = k.holds;
        is_settled = r.holds;
      }

  -- What a closing trade does: the profit is the premium alone, and the cost only changes hands.
  pub record CloseEffect (s : PositionState) (t : OptionTrade) (profit : ℤ) (s' : PositionState)
      : Type 0 where
    pub effect : OptionEffect c s profit (legs_closed s t) s'
    pub cost : all_cost s' ≡ all_cost s

  closed_effect :
      (s : PositionState) (t : OptionTrade) (z : Settlement s t) (gain : Cash) (flow : ℤ)
      → Compatible c gain
      → gain.amount ≡ z.taken.realized.amount +ℤ flow
      → Yields
          (add_assign z.settled.realized_pnl gain >>= λ x. ok (realize c z.settled x))
          (CloseEffect s t flow)
  closed_effect s t z gain flow hg e =
      let r =
        add_assign-Compatible c z.settled.realized_pnl gain z.is_settled.currency.realized hg in
      rw r.returned (
        Yields-ok _ (record {
          effect = rw (← z.is_taken.left) (
              realize-Effect c s z.settled z.taken gain r.value flow z.is_settled e r.holds.0
                r.holds.1);
          cost = z.is_settled.cost;
        }))

  pub apply_close-Effect :
      (s : PositionState) (t : OptionTrade)
      → InCurrency c s
      → OptionInCurrency c t
      → Yields (apply_close s t) (CloseEffect s t (premium_flow t.buy_sell t.premium.amount))
  unfolding apply_close
  apply_close-Effect s t hs ht =
      let z = settlement s t hs ht in
      let g =
        close_gain-Compatible c t.buy_sell z.taken.realized t.premium z.is_taken.realized
          ht.premium in
      rw (z.found, z.took, z.settles, g.returned)
        (closed_effect s t z g.value _ g.holds.0 g.holds.1)

  pub apply_exercised-Effect :
      (s : PositionState) (t : OptionTrade)
      → InCurrency c s
      → OptionInCurrency c t
      → Yields (apply_exercised s t) (CloseEffect s t (pos 0))
  unfolding apply_exercised
  apply_exercised-Effect s t hs ht =
      let z = settlement s t hs ht in
      rw (z.found, z.took, z.settles)
        (closed_effect s t z z.taken.realized (pos 0) z.is_taken.realized (omega int_laws))
