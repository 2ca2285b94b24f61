-- ===== src/Common/Cash.antt =====
-- Amounts of money (common/src/common/cash.cpp). An operator that may throw returns a result.
pub mod Laws
pub mod Compatible
use molar_tracker.Base.{Bool, if◌then◌else◌, ok, err, ◌>>=◌}
use molar_tracker.Base.Int.{ℤ, pos, ◌+ℤ◌, ◌-ℤ◌, neg, ltb_ℤ, leb_ℤ, eqb_ℤ}
use molar_tracker.Common.Exception.{Throws, currency_mismatch}
use molar_tracker.Common.Currency.{Currency, currency_eq}
use molar_tracker.Common.Quantity.{Quantity, mul_quantity, div_by}

pub record Cash : Type 0 where
  pub currency : Currency
  pub amount : ℤ

-- `Cash()`
abbrev pub no_cash : Cash
no_cash = record { currency = Currency.unknown; amount = pos 0 }

-- `lhs._takeCurrency(rhs)`, returning the changed `lhs`.
unfoldable pub take_currency : Cash → Cash → Throws Cash
take_currency lhs rhs =
    if currency_eq rhs.currency Currency.unknown
    then ok lhs
    else if currency_eq lhs.currency Currency.unknown
    then ok (record lhs { currency = rhs.currency })
    else if currency_eq lhs.currency rhs.currency
    then ok lhs
    else err currency_mismatch

-- `operator==`
unfoldable pub equal : Cash → Cash → Throws Bool
equal lhs rhs = do l ← take_currency lhs rhs; ok (eqb_ℤ l.amount rhs.amount)

-- `operator<=>`, as the test `lhs < rhs`.
unfoldable pub less : Cash → Cash → Throws Bool
less lhs rhs =
    if currency_eq lhs.currency rhs.currency
    then ok (ltb_ℤ lhs.amount rhs.amount)
    else err currency_mismatch

-- `operator+`
unfoldable pub plus : Cash → Cash → Throws Cash
plus lhs rhs = do
  l ← take_currency lhs rhs
  ok (record { currency = l.currency; amount = l.amount +ℤ rhs.amount })

-- unary `operator-`
unfoldable pub negate : Cash → Cash
negate c = record c { amount = neg c.amount }

-- binary `operator-`
unfoldable pub minus : Cash → Cash → Throws Cash
unfolding plus negate
minus lhs rhs = plus lhs (negate rhs)

-- `operator*`
unfoldable pub times : Cash → Quantity → Cash
times c q = record c { amount = mul_quantity c.amount q }

-- `operator/` by a quantity
unfoldable pub over : Cash → Quantity → Throws Cash
over c q = do a ← div_by c.amount q; ok (record c { amount = a })

-- `operator+=` and `operator-=`
unfoldable pub add_assign : Cash → Cash → Throws Cash
add_assign lhs rhs = do l ← take_currency lhs rhs; ok (record l { amount = l.amount +ℤ rhs.amount })

unfoldable pub sub_assign : Cash → Cash → Throws Cash
sub_assign lhs rhs = do l ← take_currency lhs rhs; ok (record l { amount = l.amount -ℤ rhs.amount })

unfoldable pub is_zero : Cash → Bool
is_zero c = eqb_ℤ c.amount (pos 0)

unfoldable pub is_positive : Cash → Bool
is_positive c = ltb_ℤ (pos 0) c.amount

unfoldable pub is_negative_cash : Cash → Bool
is_negative_cash c = ltb_ℤ c.amount (pos 0)

-- `Cash::max` and `Cash::min`
unfoldable pub max_cash : Cash → Cash → Throws Cash
max_cash lhs rhs =
    if currency_eq lhs.currency rhs.currency
    then ok (if leb_ℤ rhs.amount lhs.amount then lhs else rhs)
    else err currency_mismatch

unfoldable pub min_cash : Cash → Cash → Throws Cash
min_cash lhs rhs =
    if currency_eq lhs.currency rhs.currency
    then ok (if leb_ℤ lhs.amount rhs.amount then lhs else rhs)
    else err currency_mismatch
