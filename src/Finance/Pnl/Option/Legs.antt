-- ===== src/Finance/Pnl/Option/Legs.antt =====
-- The list of open legs, where all strike prices are in one currency: the search is that of the
-- first leg with the trade's key, no key stands twice, and the quantity under each key is an account.
use molar_tracker.Base.{
  List, [], ◌∷◌, Bool, true, false, ◌&&◌, if◌then◌else◌, ok, ◌≡◌, refl, arith, none, some,
}
use molar_tracker.Base.Int.{ℤ, pos, ◌+ℤ◌, eqb_ℤ}
use molar_tracker.Common.Currency.{Currency}
use molar_tracker.Common.Cash.Compatible.{Compatible, equal-Compatible}
use molar_tracker.Finance.Pnl.State.{
  OptionType, OptionBuySell, OptionTrade, OpenOptionLeg, option_type_eq, buy_sell_eq,
}
use molar_tracker.Finance.Pnl.Currency.{LegsInCurrency}
use molar_tracker.Finance.Pnl.Option.{matches, find_leg, Found, behind}

-- A leg's key: what two legs may not share.
pub record Key : Type 0 where
  pub option_type : OptionType
  pub side : OptionBuySell
  pub strike : ℤ

abbrev pub key_eq : Key → Key → Bool
key_eq j k =
    option_type_eq j.option_type k.option_type
    && buy_sell_eq j.side k.side
    && eqb_ℤ j.strike k.strike

abbrev pub leg_key : OpenOptionLeg → Key
leg_key l = record {
  option_type = l.option_type;
  side = l.buy_sell;
  strike = l.strike_price.amount;
}

abbrev pub trade_key : OptionBuySell → OptionTrade → Key
trade_key side t = record { option_type = t.option_type; side = side; strike = t.strike.amount }

-- The first leg with a key, with what stands before and behind it.
unfoldable pub first_leg : Key → List OpenOptionLeg → Found
first_leg k [] = none
first_leg k (l ∷ ls) = if key_eq (leg_key l) k then some ([], l, ls) else behind l (first_leg k ls)

-- The quantity that is open under a key.
unfoldable pub open_under : Key → List OpenOptionLeg → ℤ
open_under k [] = pos 0
open_under k (l ∷ ls) =
    if key_eq (leg_key l) k then l.qty.value +ℤ open_under k ls else open_under k ls

-- Whether a leg has the key.
unfoldable pub has_leg : Key → List OpenOptionLeg → Bool
has_leg k [] = false
has_leg k (l ∷ ls) = if key_eq (leg_key l) k then true else has_leg k ls

pub key_eq_refl : (k : Key) → key_eq k k ≡ true
key_eq_refl k = ground arith

pub key_eq_sound : (j k : Key) → key_eq j k ≡ true → j ≡ k
key_eq_sound j k h = ground arith

module _ (c : Currency) where
  matches-Compatible :
      (side : OptionBuySell) (t : OptionTrade) (l : OpenOptionLeg)
      → Compatible c l.strike_price
      → Compatible c t.strike
      → matches side t l ≡ ok (key_eq (leg_key l) (trade_key side t))
  unfolding matches
  matches-Compatible side t l hl ht =
      ground (arith, equal-Compatible c l.strike_price t.strike hl ht)

  -- The search does not throw, and finds the first leg with the trade's key.
  pub find_leg-eq-first_leg :
      (side : OptionBuySell) (t : OptionTrade) (ls : List OpenOptionLeg)
      → LegsInCurrency c ls
      → Compatible c t.strike
      → find_leg side t ls ≡ ok (first_leg (trade_key side t) ls)
  unfolding find_leg first_leg
  find_leg-eq-first_leg side t [] hl ht = refl
  find_leg-eq-first_leg side t (l ∷ ls) hl ht =
      rw (matches-Compatible side t l hl.0 ht, find_leg-eq-first_leg side t ls hl.1 ht)
        (ground arith)
