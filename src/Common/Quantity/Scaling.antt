-- ===== src/Common/Quantity/Scaling.antt =====
-- Multiplying and dividing amounts by quantities: what is exact, and how much rounding can lose.
use native.Mathlib.Nat.{mul_comm, div-mul-le_self, lt-div-mul-add, div-le_of_le-mul}
use molar_tracker.Base.{
  ℕ, ◌+◌, ◌*◌, ◌/◌, ◌^◌, ◌≤◌, ◌<◌, ◌≡◌, ◌≢◌, ap, ◌∙◌, false, ok, arith, inl, inr, Bool-cases,
}
use molar_tracker.Base.Int.{ℤ, pos, ◌*ℤ◌, quot, magnitude, eqb_ℤ, eqb_ℤ→eq}
use molar_tracker.Base.Int.Division.{
  quot-*ℤ, quot-*ℤ_cancel, *ℤ_assoc, *ℤ-ne-zero, magnitude-*ℤ, magnitude-quot,
}
use molar_tracker.Common.Word.{FitsInt64, wrap_int64-eq_of_fits, FitsInt64-of_magnitude}
use molar_tracker.Common.Quantity.{Quantity, factor, is_zero, mul_div, mul_quantity, div_by}

-- A quantity of `n` whole units.
abbrev pub whole : ℤ → Quantity
whole n = record { value = n *ℤ factor }

-- Multiplying by a whole number of units is exact.
pub mul_quantity-whole : (a n : ℤ) → FitsInt64 (a *ℤ n) → mul_quantity a (whole n) ≡ a *ℤ n
unfolding mul_quantity mul_div
mul_quantity-whole a n h =
    rw
      (← *ℤ_assoc a n factor, quot-*ℤ (a *ℤ n) factor (λ e. absurd (omega (arith, ap magnitude e))))
      (wrap_int64-eq_of_fits (a *ℤ n) h)

pub is_zero-eq_false : (q : Quantity) → q.value ≢ pos 0 → is_zero q ≡ false
unfolding is_zero
is_zero-eq_false q h = elim (Bool-cases (eqb_ℤ q.value (pos 0))) [
  | inl e ↦ absurd (h (eqb_ℤ→eq _ _ e))
  | inr e ↦ e
]

-- Dividing a product by a whole number of units gives the amount back.
pub div_by-mul_quantity :
    (a n : ℤ)
    → n ≢ pos 0
    → FitsInt64 a
    → FitsInt64 (a *ℤ n)
    → div_by (mul_quantity a (whole n)) (whole n) ≡ ok a
unfolding div_by mul_div
div_by-mul_quantity a n h fa fp = rw (
  mul_quantity-whole a n fp,
  is_zero-eq_false (whole n) (*ℤ-ne-zero n 100000000 h (omega arith)),
  quot-*ℤ_cancel (a *ℤ n) n 100000000 (omega arith),
  quot-*ℤ a n h,
  wrap_int64-eq_of_fits a fa,
)

-- The rounding of a division followed by a multiplication, on magnitudes.
divide_multiply_le : (c q f : ℕ) → 0 < f → c * f / q * q / f ≤ c
divide_multiply_le c q f h = div-le_of_le-mul f (rw (mul_comm f c) (div-mul-le_self (c * f) q))

cancel_factor : (a b f : ℕ) → a * f < b * f → a < b
cancel_factor a b f h = grind arith

divide_multiply_loss : (c q f : ℕ) → 0 < f → 0 < q → c < c * f / q * q / f + q / f + 2
divide_multiply_loss c q f h k = cancel_factor c (c * f / q * q / f + q / f + 2) f (
    grind (
      arith,
      lt-div-mul-add {a = c * f} {b = q} k,
      lt-div-mul-add {a = c * f / q * q} {b = f} h,
      lt-div-mul-add {a = q} {b = f} h,
    ))

-- Without overflow the magnitude of `mul_div` is the truncated quotient of the magnitudes.
pub magnitude-mul_div :
    (a b d : ℤ)
    → magnitude a * magnitude b / magnitude d < 2 ^ 63
    → magnitude (mul_div a b d) ≡ magnitude a * magnitude b / magnitude d
unfolding mul_div
magnitude-mul_div a b d h =
    let e : magnitude (quot (a *ℤ b) d) ≡ magnitude a * magnitude b / magnitude d =
      rw (magnitude-quot (a *ℤ b) d, magnitude-*ℤ a b) in
    rw (wrap_int64-eq_of_fits (quot (a *ℤ b) d) (FitsInt64-of_magnitude _ (rw e h))) e

-- A division that does not throw had a divisor other than zero.
pub div_by-eq_ok :
    (c : ℤ) (q : Quantity) {a : ℤ}
    → div_by c q ≡ ok a
    → (0 < magnitude q.value) × (a ≡ mul_div c factor q.value)
unfolding div_by
div_by-eq_ok c q e = ground arith

-- Dividing an amount by a quantity and multiplying back never gives more than the amount, and
-- loses less than two units and one for each whole unit of the quantity.
pub div_by-mul_quantity_bounds :
    (c : ℤ) (q : Quantity) {a : ℤ}
    → magnitude c < 2 ^ 63
    → magnitude c * 10 ^ 8 / magnitude q.value < 2 ^ 63
    → div_by c q ≡ ok a
    → (magnitude (mul_quantity a q) ≤ magnitude c)
      × (magnitude c < magnitude (mul_quantity a q) + magnitude q.value / 10 ^ 8 + 2)
unfolding mul_quantity
div_by-mul_quantity_bounds c q {a} fc fa e =
    let (pos_q, ea) = div_by-eq_ok c q e in
    let ma = ap magnitude ea ∙ magnitude-mul_div c factor q.value fa in
    let le = divide_multiply_le (magnitude c) (magnitude q.value) 100000000 (omega arith) in
    let back = ap (λ (t : ℕ). t * magnitude q.value / 100000000) ma in
    let mb = magnitude-mul_div a q.value factor (omega arith) ∙ back in
    rw mb (le, divide_multiply_loss (magnitude c) (magnitude q.value) 100000000 (omega arith) pos_q)
