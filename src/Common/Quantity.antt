-- ===== src/Common/Quantity.antt =====
-- Quantities in units of 10^-8 (common/src/common/quantity.cpp and its headers). Sums, differences
-- and products of `micro_units` are those of the integers: their overflow is undefined in C++. The
-- cast in `mul_div` wraps.
use molar_tracker.Base.{◌≡◌, Bool, false, if◌then◌else◌, ok, err, ◌*◌, ◌^◌, ◌<◌}
use molar_tracker.Base.Int.{ℤ, pos, ◌+ℤ◌, ◌-ℤ◌, ◌*ℤ◌, ◌≤ℤ◌, neg, quot, ltb_ℤ, eqb_ℤ, magnitude}
pub mod Scaling
use molar_tracker.Common.Exception.{Throws, domain_error}
use molar_tracker.Common.Word.{wrap_int64}

pub record Quantity : Type 0 where
  pub value : ℤ

-- `Quantity::factor`, 10^8.
abbrev pub factor : ℤ
factor = pos 100000000

abbrev pub zero_quantity : Quantity
zero_quantity = record { value = pos 0 }

unfoldable pub is_zero : Quantity → Bool
is_zero q = eqb_ℤ q.value (pos 0)

unfoldable pub abs_quantity : Quantity → Quantity
abs_quantity q = if ltb_ℤ q.value (pos 0) then record { value = neg q.value } else q

unfoldable pub add : Quantity → Quantity → Quantity
add p q = record { value = p.value +ℤ q.value }

unfoldable pub sub : Quantity → Quantity → Quantity
sub p q = record { value = p.value -ℤ q.value }

unfoldable pub negate : Quantity → Quantity
negate q = record { value = neg q.value }

-- `operator*(const Quantity&, micro_units)`
unfoldable pub scale : Quantity → ℤ → Quantity
scale q n = record { value = q.value *ℤ n }

-- The product is taken in 128 bits, and the quotient is cast back.
unfoldable pub mul_div : ℤ → ℤ → ℤ → ℤ
mul_div lhs rhs divisor = wrap_int64 (quot (lhs *ℤ rhs) divisor)

-- `mulDiv(micro_units, Quantity)`
unfoldable pub mul_quantity : ℤ → Quantity → ℤ
mul_quantity lhs q = mul_div lhs q.value factor

unfoldable pub div_by : ℤ → Quantity → Throws ℤ
unfolding is_zero
div_by lhs q = if is_zero q then err domain_error else ok (mul_div lhs factor q.value)

-- `getValue` and the comparisons made from it go through `double`. The type is a parameter: its
-- laws are those of a conversion and a division that round monotonically, and that are exact
-- enough to tell apart two multiples of 10^-8 below 2^26.
pub record Doubles : Type 1 where
  pub Double : Type 0
  pub of_ℤ : ℤ → Double
  pub divide : Double → Double → Double
  pub less : Double → Double → Bool
  pub monotone :
      (a b : ℤ)
      → a ≤ℤ b
      → less (divide (of_ℤ b) (of_ℤ factor)) (divide (of_ℤ a) (of_ℤ factor)) ≡ false
  pub signed : (a : ℤ) → less (of_ℤ (pos 0)) (divide (of_ℤ a) (of_ℤ factor)) ≡ ltb_ℤ (pos 0) a
  pub exact :
      (a b : ℤ)
      → magnitude a < 2 ^ 26 * 10 ^ 8
      → magnitude b < 2 ^ 26 * 10 ^ 8
      → less (divide (of_ℤ a) (of_ℤ factor)) (divide (of_ℤ b) (of_ℤ factor)) ≡ ltb_ℤ a b

module _ (d : Doubles) where
  open d use {Double, of_ℤ, divide, less}

  -- `getValue`
  unfoldable pub get_value : Quantity → Double
  get_value q = divide (of_ℤ q.value) (of_ℤ factor)

  -- `quantity > 0`, with the int converted to `double`.
  unfoldable pub is_positive : Quantity → Bool
  unfolding get_value
  is_positive q = less (of_ℤ (pos 0)) (get_value q)

  -- `std::min` of two quantities, by `operator<=>` on their values as doubles.
  unfoldable pub min_quantity : Quantity → Quantity → Quantity
  unfolding get_value
  min_quantity p q = if less (get_value q) (get_value p) then q else p
