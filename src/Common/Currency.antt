-- ===== src/Common/Currency.antt =====
-- src/common: currencies (common/include/common/finance.hpp, common/src/common/currency.cpp).
use molar_tracker.Base.{ℕ, ◌≡◌, Bool, true, false, arith}

pub data Currency : Type 0 where
  unknown usd eur gbp chf : Currency

-- `getMicroUnit`: the decimal places that an amount is stored with.
unfoldable pub get_micro_unit : Currency → ℕ
get_micro_unit Currency.usd = 6
get_micro_unit Currency.eur = 6
get_micro_unit Currency.gbp = 6
get_micro_unit Currency.chf = 6
get_micro_unit Currency.unknown = 0

-- `==` of the enumeration.
abbrev pub currency_eq : Currency → Currency → Bool
currency_eq Currency.unknown Currency.unknown = true
currency_eq Currency.usd Currency.usd = true
currency_eq Currency.eur Currency.eur = true
currency_eq Currency.gbp Currency.gbp = true
currency_eq Currency.chf Currency.chf = true
currency_eq _ _ = false

pub currency_eq_sound : (c d : Currency) → currency_eq c d ≡ true → c ≡ d
currency_eq_sound c d h = ground arith

pub currency_eq_refl : (c : Currency) → currency_eq c c ≡ true
currency_eq_refl c = ground arith
