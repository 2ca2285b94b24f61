-- ===== src/Finance/Pnl/Option/Books.antt =====
-- The quantities that are open under each key, through whole option trades.
use molar_tracker.Base.{
  ◌≡◌, refl, ◌∙◌, ap, true, false, if◌then◌else◌, none, some, List, arith, Yields, Yields-weaken,
  [], ◌∷◌,
}
use molar_tracker.Base.Int.{ℤ, pos, ◌+ℤ◌, ◌-ℤ◌, int_laws}
use molar_tracker.Common.Currency.{Currency}
use molar_tracker.Finance.Pnl.State.{OptionTrade, OpenOptionLeg, PositionState, open_side}
use molar_tracker.Finance.Pnl.Currency.{InCurrency, OptionInCurrency}
use molar_tracker.Finance.Pnl.Option.{apply_open, apply_close, apply_exercised}
use molar_tracker.Finance.Pnl.Option.Legs.{Key, trade_key, first_leg, open_under, has_leg}
use molar_tracker.Finance.Pnl.Option.Accounts.{
  under, finds_open, open_under-add_leg, open_under-closed_legs,
}
use molar_tracker.Finance.Pnl.Option.Settle.{legs_left}
use molar_tracker.Finance.Pnl.Option.Effect.{
  CloseEffect, apply_open-Effect, apply_close-Effect, apply_exercised-Effect,
}

first_leg-has_leg :
    (k : Key) (ls : List OpenOptionLeg)
    → has_leg k ls ≡ elim (first_leg k ls) [ none ↦ false | some _ ↦ true ]
unfolding first_leg has_leg
first_leg-has_leg k [] = refl
first_leg-has_leg k (l ∷ ls) = ground (arith, first_leg-has_leg k ls)

keep_all : (a : ℤ) → a ≡ a -ℤ pos 0
keep_all a = omega int_laws

open_under-legs_left :
    (t : OptionTrade) (j k : Key) (ls : List OpenOptionLeg)
    → open_under j (legs_left t ls (first_leg k ls))
      ≡ open_under j ls
        -ℤ (if finds_open (first_leg k ls) then under k j t.quantity.value else pos 0)
open_under-legs_left t j k ls =
    ground
      (arith, open_under-closed_legs t j k ls, first_leg-has_leg k ls, keep_all (open_under j ls))

-- What closing and exercising take off: the trade's quantity, under the key of the opposite side,
-- if a leg with that key is open and not empty.
abbrev pub taken_off : PositionState → OptionTrade → Key → ℤ
taken_off s t j =
    let k = trade_key (open_side t.buy_sell) t in
    if finds_open (first_leg k s.open_option_legs) then under k j t.quantity.value else pos 0

module _ (c : Currency) where
  -- Opening a leg adds the trade's quantity under the trade's key, and changes no other key.
  pub open_under-apply_open :
      (s : PositionState) (t : OptionTrade) (j : Key)
      → InCurrency c s
      → OptionInCurrency c t
      → Yields (apply_open s t) (λ s'.
        open_under j s'.open_option_legs
        ≡ open_under j s.open_option_legs +ℤ under (trade_key t.buy_sell t) j t.quantity.value)
  open_under-apply_open s t j hs ht = Yields-weaken _ (apply_open-Effect c s t hs ht) λ r e.
      ap (open_under j) e.legs_after
      ∙ open_under-add_leg t j (trade_key t.buy_sell t) s.open_option_legs refl

  closing_books :
      (s : PositionState) (t : OptionTrade) (j : Key) (profit : ℤ) (r : PositionState)
      → CloseEffect c s t profit r
      → open_under j r.open_option_legs ≡ open_under j s.open_option_legs -ℤ taken_off s t j
  closing_books s t j profit r e =
      ap (open_under j) e.effect.legs_after
      ∙ open_under-legs_left t j (trade_key (open_side t.buy_sell) t) s.open_option_legs

  -- Closing or exercising takes the trade's quantity off the key that it closes, where a leg is
  -- open under it, and changes no other key.
  pub open_under-apply_close :
      (s : PositionState) (t : OptionTrade) (j : Key)
      → InCurrency c s
      → OptionInCurrency c t
      → Yields (apply_close s t) (λ s'.
        open_under j s'.open_option_legs ≡ open_under j s.open_option_legs -ℤ taken_off s t j)
        × Yields (apply_exercised s t) (λ s'.
          open_under j s'.open_option_legs ≡ open_under j s.open_option_legs -ℤ taken_off s t j)
  open_under-apply_close s t j hs ht = (
    Yields-weaken _ (apply_close-Effect c s t hs ht) (closing_books s t j _),
    Yields-weaken _ (apply_exercised-Effect c s t hs ht) (closing_books s t j _),
  )
