-- ===== src/Examples/Pnl.antt =====
-- Positions at concrete trades.
use molar_tracker.Base.{◌≡◌, refl, ok, err, List, [], ◌∷◌, ◌++◌, Yields, inl, inr}
use molar_tracker.Base.Int.{neg, quot, ◌*ℤ◌, pos, negsuc, ◌+ℤ◌, ◌-ℤ◌}
use molar_tracker.Common.Currency.{Currency}
use molar_tracker.Common.Quantity.{
  is_zero, add, is_positive, div_by, abs_quantity, min_quantity, mul_div, mul_quantity, negate, sub,
}
use molar_tracker.Common.Word.{wrap_int64}
use molar_tracker.Finance.Pnl.Stock.{apply_opening, apply_reducing, apply_remainder}
use molar_tracker.Common.Cash.{
  times, over, minus, plus, negate as negate_cash, add_assign, take_currency, sub_assign,
}
use molar_tracker.Finance.Pnl.State.{
  OptionType, OptionBuySell, TransactionOptionAction, StockTrade, OptionTrade, Trade, PositionEvent,
  PositionState, empty_state,
}
use molar_tracker.Finance.Pnl.Currency.{InCurrency, StockInCurrency, OptionInCurrency}
use molar_tracker.Finance.Pnl.Stock.{apply_stock}
use molar_tracker.Finance.Pnl.Stock.Effect.{StockEffect, apply_stock-StockEffect}
use molar_tracker.Finance.Pnl.Option.{
  apply_open, apply_close, apply_exercised, apply_option, inconsistent_contract_size,
  check_contract_size, dispatch, find_leg, open_cash, add_leg,
}
use molar_tracker.Finance.Pnl.Option.Legs.{Key, open_under, trade_key}
use molar_tracker.Finance.Pnl.Option.Accounts.{under}
use molar_tracker.Finance.Pnl.Option.Dispatch.{OptionTradeEffect, apply_option-OptionTradeEffect}
use molar_tracker.Finance.Pnl.Option.Books.{
  taken_off, open_under-apply_open, open_under-apply_close,
}
use molar_tracker.Finance.Pnl.Fold.{fold_events}
use molar_tracker.Finance.Pnl.Fold.Totals.{
  IsSound, Adds, total, shares, trade_fees, fold_events-total, fold_events-inconsistent,
}
use molar_tracker.Examples.Fractions.{fractions}
use molar_tracker.Examples.Cash.{usd, bare}

-- A buy of two shares at ten, and a sale of three at twelve: the sale flips the position.
abbrev buy_two : StockTrade
buy_two = record {
  quantity = record { value = pos 200_000_000 };
  unit_price = usd (pos 10_000_000);
  fees = usd (pos 1_000_000);
}

abbrev sell_three : StockTrade
sell_three = record {
  quantity = record { value = negsuc 299_999_999 };
  unit_price = usd (pos 12_000_000);
  fees = usd (pos 500_000);
}

abbrev call_open : OptionTrade
call_open = record {
  option_type = OptionType.call;
  buy_sell = OptionBuySell.buy;
  action = TransactionOptionAction.opening;
  strike = usd (pos 90_000_000);
  quantity = record { value = pos 100_000_000 };
  contract_size = pos 100;
  premium = usd (pos 5_000_000);
  fees = usd (pos 700_000);
}

abbrev call_close : OptionTrade
call_close = record call_open {
  buy_sell = OptionBuySell.sell;
  action = TransactionOptionAction.closing;
  premium = usd (pos 8_000_000);
}

abbrev mini_open : OptionTrade
mini_open = record call_open { contract_size = pos 10 }

abbrev stock_event : StockTrade → PositionEvent
stock_event t = record { timestamp = pos 0; trade = Trade.stock t }

abbrev option_event : OptionTrade → PositionEvent
option_event t = record { timestamp = pos 0; trade = Trade.option t }

flipped :
    fold_events fractions empty_state (stock_event buy_two ∷ stock_event sell_three ∷ [])
    ≡ ok (record {
      open_quantity = record { value = negsuc 99_999_999 };
      cost_basis = usd (pos 12_000_000);
      realized_pnl = usd (pos 4_000_000);
      realized_cost_basis = usd (pos 20_000_000);
      unrealized_option_pnl = bare (pos 0);
      fees = usd (pos 1_500_000);
      contract_size = pos 0;
      open_option_legs = [];
    })
unfolding fold_events apply_stock add_assign take_currency is_zero apply_opening times add ◌+ℤ◌
    is_positive ◌*ℤ◌ apply_reducing over div_by abs_quantity minus sub_assign apply_remainder neg
    quot ◌-ℤ◌ plus min_quantity mul_div mul_quantity negate sub wrap_int64 negate_cash
flipped = refl

empty-InCurrency : InCurrency Currency.usd empty_state
empty-InCurrency = record {
  cost = inl refl;
  realized = inl refl;
  realized_cost = inl refl;
  unrealized = inl refl;
  fees = inl refl;
  legs = tt;
}

abbrev in_usd : StockInCurrency Currency.usd buy_two
in_usd = record { unit_price = inr refl; fees = inr refl }

option_in_usd : OptionInCurrency Currency.usd call_open
option_in_usd = record { strike = inr refl; premium = inr refl; fees = inr refl }

close_in_usd : OptionInCurrency Currency.usd call_close
close_in_usd = record { strike = inr refl; premium = inr refl; fees = inr refl }

apply_stock-StockEffect_example :
    Yields
      (apply_stock fractions empty_state buy_two)
      (StockEffect Currency.usd empty_state buy_two)
apply_stock-StockEffect_example =
    apply_stock-StockEffect Currency.usd fractions empty_state buy_two empty-InCurrency in_usd

apply_option-OptionTradeEffect_example :
    Yields
      (apply_option empty_state call_open)
      (OptionTradeEffect Currency.usd empty_state call_open)
apply_option-OptionTradeEffect_example =
    apply_option-OptionTradeEffect Currency.usd empty_state call_open empty-InCurrency option_in_usd
      (inl refl)

abbrev call_key : Key
call_key = record {
  option_type = OptionType.call;
  side = OptionBuySell.buy;
  strike = pos 90_000_000;
}

open_under-apply_open_example : Yields (apply_open empty_state call_open) (λ s'.
    open_under call_key s'.open_option_legs
    ≡ open_under call_key []
      +ℤ under (trade_key OptionBuySell.buy call_open) call_key (pos 100_000_000))
open_under-apply_open_example =
    open_under-apply_open Currency.usd empty_state call_open call_key empty-InCurrency option_in_usd

open_under-apply_close_example :
    Yields (apply_close empty_state call_close) (λ s'.
      open_under call_key s'.open_option_legs
      ≡ open_under call_key [] -ℤ taken_off empty_state call_close call_key)
    × Yields (apply_exercised empty_state call_close) (λ s'.
      open_under call_key s'.open_option_legs
      ≡ open_under call_key [] -ℤ taken_off empty_state call_close call_key)
open_under-apply_close_example =
    open_under-apply_close Currency.usd empty_state call_close call_key empty-InCurrency
      close_in_usd

abbrev history : List PositionEvent
history = stock_event buy_two ∷ option_event call_open ∷ option_event call_close ∷ []

empty-IsSound : IsSound Currency.usd (pos 100) empty_state
empty-IsSound = record { currency = empty-InCurrency; contract_size = inl refl; distinct = tt }

fold_events-total_example : Yields (fold_events fractions empty_state history) (λ s'.
    IsSound Currency.usd (pos 100) s'
    × Adds empty_state (total shares history) (total trade_fees history) s')
fold_events-total_example =
    fold_events-total Currency.usd (pos 100) fractions empty_state history empty-IsSound
      (in_usd, ((option_in_usd, refl), ((close_in_usd, refl), tt)))

-- After one contract of size 100, one of size 10 fails the fold.
abbrev after_open : PositionState
after_open = record empty_state {
  cost_basis = usd (pos 5_000_000);
  unrealized_option_pnl = usd (negsuc 4_999_999);
  fees = usd (pos 700_000);
  contract_size = pos 100;
  open_option_legs =
      record {
        option_type = OptionType.call;
        buy_sell = OptionBuySell.buy;
        strike_price = usd (pos 90_000_000);
        qty = record { value = pos 100_000_000 };
      }
      ∷ [];
}

fold_events-inconsistent_example :
    fold_events fractions empty_state
      ((option_event call_open ∷ []) ++ (option_event mini_open ∷ stock_event buy_two ∷ []))
    ≡ err inconsistent_contract_size
unfolding fold_events apply_option check_contract_size add_assign take_currency dispatch apply_open
    find_leg open_cash sub_assign ◌+ℤ◌ ◌-ℤ◌ add_leg
fold_events-inconsistent_example =
    fold_events-inconsistent fractions empty_state after_open (option_event call_open ∷ [])
      (stock_event buy_two ∷ []) (option_event mini_open) mini_open refl refl (λ e. cc) (λ e. cc)
