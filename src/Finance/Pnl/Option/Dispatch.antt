-- ===== src/Finance/Pnl/Option/Dispatch.antt =====
-- Any option trade: the `switch` over the action and the check of the contract size.
use molar_tracker.Base.{
  ◌≡◌, ◌≢◌, refl, ◌∙◌, ap, List, arith, Yields, Yields-weaken, Yields-ok, ok, err, ◌⊎◌,
}
use molar_tracker.Base.Int.{ℤ, pos, ◌+ℤ◌, eqb_ℤ→eq, eqb_ℤ-refl}
use molar_tracker.Common.Currency.{Currency}
use molar_tracker.Common.Cash.{Cash}
use molar_tracker.Common.Cash.Compatible.{Compatible, add_assign-Compatible}
use molar_tracker.Finance.Pnl.State.{
  OptionBuySell, TransactionOptionAction, OptionTrade, OpenOptionLeg, PositionState,
}
use molar_tracker.Finance.Pnl.Currency.{InCurrency, OptionInCurrency}
use molar_tracker.Finance.Pnl.Option.{
  inconsistent_contract_size, add_leg, check_contract_size, dispatch, apply_option, open_side,
}
use molar_tracker.Finance.Pnl.Option.Legs.{trade_key, first_leg}
use molar_tracker.Finance.Pnl.Option.Distinct.{Distinct, add_leg-Distinct, closed_legs-Distinct}
use molar_tracker.Finance.Pnl.Option.Settle.{legs_closed, OptionEffect, premium_flow, option_profit}
use molar_tracker.Finance.Pnl.Option.Effect.{
  apply_open-Effect, apply_close-Effect, apply_exercised-Effect,
}

-- The premium that a trade moves: none on an exercise.
abbrev pub trade_flow : TransactionOptionAction → OptionBuySell → ℤ → ℤ
trade_flow TransactionOptionAction.exercised side p = pos 0
trade_flow TransactionOptionAction.opening side p = premium_flow side p
trade_flow TransactionOptionAction.roll_open side p = premium_flow side p
trade_flow TransactionOptionAction.closing side p = premium_flow side p
trade_flow TransactionOptionAction.roll_close side p = premium_flow side p

-- The legs after a trade.
abbrev pub legs_after_trade :
    TransactionOptionAction → PositionState → OptionTrade → List OpenOptionLeg
legs_after_trade TransactionOptionAction.opening s t =
    add_leg t s.open_option_legs (first_leg (trade_key t.buy_sell t) s.open_option_legs)
legs_after_trade TransactionOptionAction.roll_open s t =
    add_leg t s.open_option_legs (first_leg (trade_key t.buy_sell t) s.open_option_legs)
legs_after_trade _ s t = legs_closed s t

-- What an option trade amounts to.
pub record OptionTradeEffect (c : Currency) (s : PositionState) (t : OptionTrade)
    (s' : PositionState) : Type 0 where
  pub currency : InCurrency c s'
  pub quantity : s'.open_quantity ≡ s.open_quantity
  pub fees : s'.fees.amount ≡ s.fees.amount +ℤ t.fees.amount
  pub contract_size : s'.contract_size ≡ t.contract_size
  pub legs : s'.open_option_legs ≡ legs_after_trade t.action s t
  pub profits :
      option_profit s' ≡ option_profit s +ℤ trade_flow t.action t.buy_sell t.premium.amount

module _ (c : Currency) where
  dispatch-Effect :
      (a : TransactionOptionAction) (s : PositionState) (t : OptionTrade)
      → InCurrency c s
      → OptionInCurrency c t
      → Yields
          (dispatch a s t)
          (OptionEffect c s (trade_flow a t.buy_sell t.premium.amount) (legs_after_trade a s t))
  unfolding dispatch
  dispatch-Effect TransactionOptionAction.opening s t hs ht = apply_open-Effect c s t hs ht
  dispatch-Effect TransactionOptionAction.roll_open s t hs ht = apply_open-Effect c s t hs ht
  dispatch-Effect TransactionOptionAction.closing s t hs ht =
      Yields-weaken _ (apply_close-Effect c s t hs ht) (λ r e. e.effect)
  dispatch-Effect TransactionOptionAction.roll_close s t hs ht =
      Yields-weaken _ (apply_close-Effect c s t hs ht) (λ r e. e.effect)
  dispatch-Effect TransactionOptionAction.exercised s t hs ht =
      Yields-weaken _ (apply_exercised-Effect c s t hs ht) (λ r e. e.effect)

  -- The state in which the action runs.
  abbrev prepared : PositionState → ℤ → Cash → PositionState
  prepared s size f = record s { contract_size = size; fees = f }

  legs_prepared :
      (a : TransactionOptionAction) (s : PositionState) (t : OptionTrade) (size : ℤ) (f : Cash)
      → legs_after_trade a (prepared s size f) t ≡ legs_after_trade a s t
  legs_prepared a s t size f = ground arith

  prepared-InCurrency :
      (s : PositionState) (size : ℤ) (f : Cash)
      → InCurrency c s
      → Compatible c f
      → InCurrency c (prepared s size f)
  prepared-InCurrency s size f hs hf = record {
    cost = hs.cost;
    realized = hs.realized;
    realized_cost = hs.realized_cost;
    unrealized = hs.unrealized;
    fees = hf;
    legs = hs.legs;
  }

  check_contract_size-agrees :
      (s : PositionState) (size : ℤ)
      → (s.contract_size ≡ pos 0) ⊎ (s.contract_size ≡ size)
      → check_contract_size s size ≡ ok (record s { contract_size = size })
  unfolding check_contract_size
  check_contract_size-agrees s size h = ground (arith, eqb_ℤ-refl size)

  -- An option trade in the position's currency whose contract size agrees does not fail.
  pub apply_option-OptionTradeEffect :
      (s : PositionState) (t : OptionTrade)
      → InCurrency c s
      → OptionInCurrency c t
      → (s.contract_size ≡ pos 0) ⊎ (s.contract_size ≡ t.contract_size)
      → Yields (apply_option s t) (OptionTradeEffect c s t)
  unfolding apply_option
  apply_option-OptionTradeEffect s t hs ht agrees =
      let f = add_assign-Compatible c s.fees t.fees hs.fees ht.fees in
      let p = prepared s t.contract_size f.value in
      let e =
        dispatch-Effect t.action p t (prepared-InCurrency s t.contract_size f.value hs f.holds.0)
          ht in
      rw (check_contract_size-agrees s t.contract_size agrees, f.returned, e.returned)
        (Yields-ok _ (record {
          currency = e.holds.currency;
          quantity = e.holds.quantity;
          fees = ap (λ x. x.amount) e.holds.fees ∙ f.holds.1;
          contract_size = e.holds.contract_size;
          legs = e.holds.legs_after ∙ legs_prepared t.action s t t.contract_size f.value;
          profits = e.holds.profits;
        }))

-- A trade of another contract size is refused, whatever else it holds.
pub apply_option-inconsistent :
    (s : PositionState) (t : OptionTrade)
    → s.contract_size ≢ pos 0
    → s.contract_size ≢ t.contract_size
    → apply_option s t ≡ err inconsistent_contract_size
unfolding apply_option check_contract_size
apply_option-inconsistent s t h k =
    ground (arith, eqb_ℤ→eq s.contract_size (pos 0), eqb_ℤ→eq s.contract_size t.contract_size)

-- No action makes two legs share a key.
pub legs_after_trade-Distinct :
    (a : TransactionOptionAction) (s : PositionState) (t : OptionTrade)
    → Distinct s.open_option_legs
    → Distinct (legs_after_trade a s t)
legs_after_trade-Distinct a s t h = ground (
  arith,
  add_leg-Distinct t (trade_key t.buy_sell t) s.open_option_legs refl h,
  closed_legs-Distinct t (trade_key (open_side t.buy_sell) t) s.open_option_legs h,
)
