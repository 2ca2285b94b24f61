-- ===== src/Finance/Pnl/State.antt =====
-- The data of finance/include/finance/transaction/pnl.hpp.
use molar_tracker.Base.{List, [], Bool, true, false}
use molar_tracker.Base.Int.{ℤ, pos}
use molar_tracker.Common.Cash.{Cash, no_cash}
use molar_tracker.Common.Quantity.{Quantity, zero_quantity}

pub data OptionType : Type 0 where
  call put : OptionType

pub data OptionBuySell : Type 0 where
  buy sell : OptionBuySell

-- `Open`, `Close`, `RollOpen`, `RollClose`, `Exercised`
pub data TransactionOptionAction : Type 0 where
  opening closing roll_open roll_close exercised : TransactionOptionAction

pub record StockTrade : Type 0 where
  pub quantity : Quantity
  pub unit_price : Cash
  pub fees : Cash

pub record OptionTrade : Type 0 where
  pub option_type : OptionType
  pub buy_sell : OptionBuySell
  pub action : TransactionOptionAction
  pub strike : Cash
  pub quantity : Quantity
  pub contract_size : ℤ
  pub premium : Cash
  pub fees : Cash

-- `std::variant<StockTrade, OptionTrade>`
pub data Trade : Type 0 where
  stock : StockTrade → Trade
  option : OptionTrade → Trade

pub record PositionEvent : Type 0 where
  pub timestamp : ℤ
  pub trade : Trade

pub record OpenOptionLeg : Type 0 where
  pub option_type : OptionType
  pub buy_sell : OptionBuySell
  pub strike_price : Cash
  pub qty : Quantity

pub record PositionState : Type 0 where
  pub open_quantity : Quantity
  pub cost_basis : Cash
  pub realized_pnl : Cash
  pub realized_cost_basis : Cash
  pub unrealized_option_pnl : Cash
  pub fees : Cash
  pub contract_size : ℤ
  pub open_option_legs : List OpenOptionLeg

-- `PositionState{}`
abbrev pub empty_state : PositionState
empty_state = record {
  open_quantity = zero_quantity;
  cost_basis = no_cash;
  realized_pnl = no_cash;
  realized_cost_basis = no_cash;
  unrealized_option_pnl = no_cash;
  fees = no_cash;
  contract_size = pos 0;
  open_option_legs = [];
}

-- `==` of the two enumerations.
abbrev pub option_type_eq : OptionType → OptionType → Bool
option_type_eq OptionType.call OptionType.call = true
option_type_eq OptionType.put OptionType.put = true
option_type_eq _ _ = false

abbrev pub buy_sell_eq : OptionBuySell → OptionBuySell → Bool
buy_sell_eq OptionBuySell.buy OptionBuySell.buy = true
buy_sell_eq OptionBuySell.sell OptionBuySell.sell = true
buy_sell_eq _ _ = false

-- The side that a closing trade closes.
abbrev pub open_side : OptionBuySell → OptionBuySell
open_side OptionBuySell.buy = OptionBuySell.sell
open_side OptionBuySell.sell = OptionBuySell.buy
