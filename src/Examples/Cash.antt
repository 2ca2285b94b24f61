-- ===== src/Examples/Cash.antt =====
-- Amounts and quantities at concrete inputs.
use molar_tracker.Common.Word.{wrap_int64}
use molar_tracker.Base.{◌≡◌, refl, ok, arith, ◌^◌, ◌≤◌, ◌<◌, ◌+◌, ◌/◌}
use molar_tracker.Base.Int.{ℤ, pos, negsuc, ◌*ℤ◌, magnitude, ◌+ℤ◌, quot}
use molar_tracker.Common.Currency.{Currency}
use molar_tracker.Common.Quantity.{Quantity, mul_quantity, div_by, mul_div}
use molar_tracker.Common.Quantity.Scaling.{whole, div_by-mul_quantity_bounds}
use molar_tracker.Common.Cash.{Cash, plus, times, over, take_currency}
use molar_tracker.Common.Cash.Laws.{over-times}

abbrev pub usd : ℤ → Cash
usd a = record { currency = Currency.usd; amount = a }

abbrev pub eur : ℤ → Cash
eur a = record { currency = Currency.eur; amount = a }

abbrev pub bare : ℤ → Cash
bare a = record { currency = Currency.unknown; amount = a }

-- One currency and none: the sum takes the known one.
plus_known : plus (bare (pos 3)) (usd (negsuc 4)) ≡ ok (usd (negsuc 1))
unfolding plus take_currency ◌+ℤ◌
plus_known = refl

over-times_example :
    over (times (usd (pos 1_500_000)) (whole (negsuc 2))) (whole (negsuc 2))
    ≡ ok (usd (pos 1_500_000))
unfolding ◌*ℤ◌
over-times_example =
    over-times (usd (pos 1_500_000)) (negsuc 2) (λ e. cc) (omega arith) (omega arith)

-- Ten units split into three parts.
abbrev three : Quantity
three = record { value = pos 300_000_000 }

div_by-mul_quantity_bounds_example :
    (magnitude (mul_quantity (pos 3_333_333) three) ≤ 10_000_000)
    × (10_000_000 < magnitude (mul_quantity (pos 3_333_333) three) + 300_000_000 / 10 ^ 8 + 2)
unfolding div_by mul_div wrap_int64 quot ◌*ℤ◌
div_by-mul_quantity_bounds_example =
    div_by-mul_quantity_bounds (pos 10_000_000) three (omega arith) (omega arith) refl
