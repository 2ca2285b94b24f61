-- ===== src/Examples/Fractions.antt =====
-- A number type that meets the laws asked of `double`: fractions, compared exactly.
use molar_tracker.Base.{◌≡◌, Bool, false, arith}
use molar_tracker.Base.Int.{ℤ, pos, negsuc, ◌*ℤ◌, ◌≤ℤ◌, ltb_ℤ}
use molar_tracker.Common.Quantity.{Doubles, factor}

abbrev pub divide : ℤ × ℤ → ℤ × ℤ → ℤ × ℤ
divide (a, b) (c, d) = (a *ℤ d, b *ℤ c)

abbrev pub less : ℤ × ℤ → ℤ × ℤ → Bool
less (a, b) (c, d) = ltb_ℤ (a *ℤ d) (c *ℤ b)

abbrev pub as_double : ℤ → ℤ × ℤ
as_double a = divide (a, pos 1) (factor, pos 1)

pub less-ltb : (a b : ℤ) → less (as_double a) (as_double b) ≡ ltb_ℤ a b
unfolding ◌*ℤ◌
less-ltb (pos m) (pos n) = ground arith
less-ltb (pos m) (negsuc n) = ground arith
less-ltb (negsuc m) (pos n) = ground arith
less-ltb (negsuc m) (negsuc n) = ground arith

pub monotone : (a b : ℤ) → a ≤ℤ b → less (as_double b) (as_double a) ≡ false
monotone a b h = ground (arith, less-ltb b a)

pub signed : (a : ℤ) → less (pos 0, pos 1) (as_double a) ≡ ltb_ℤ (pos 0) a
unfolding ◌*ℤ◌
signed (pos n) = ground arith
signed (negsuc n) = ground arith

abbrev pub fractions : Doubles
fractions = record {
  Double = ℤ × ℤ;
  of_ℤ = λ a. (a, pos 1);
  divide = divide;
  less = less;
  monotone = monotone;
  signed = signed;
  exact = λ a b ha hb. less-ltb a b;
}
