-- ===== src/Base/Int/Division.antt =====
-- Products and truncated quotients of integers by sign and magnitude.

use Prim.Native.Nat.{ℕ, zero, suc, ◌*◌, ◌/◌, ◌<◌}
use native.Mathlib.Nat.{mul-div-mul_right}
use mathlib.Core.Path.{◌≡◌, refl, ap, sym, ◌∙◌}
use mathlib.Core.Logic.{◌≢◌}
use mathlib.Core.Bool.{Bool, true, false, xor}
use native.Mathlib.Omega.{arith}
use molar_tracker.Base.Int.{ℤ, pos, negsuc, ◌*ℤ◌, quot, magnitude, is_negative, with_sign}

pub *ℤ_signed :
    (a b : ℤ) → a *ℤ b ≡ with_sign (xor (is_negative a) (is_negative b)) (magnitude a * magnitude b)
unfolding ◌*ℤ◌ xor
*ℤ_signed (pos m) (pos n) = ground arith
*ℤ_signed (pos m) (negsuc n) = ground arith
*ℤ_signed (negsuc m) (pos n) = ground arith
*ℤ_signed (negsuc m) (negsuc n) = ground arith

pub magnitude-with_sign : (s : Bool) (n : ℕ) → magnitude (with_sign s n) ≡ n
magnitude-with_sign false n = refl
magnitude-with_sign true n = ground arith

pub with_sign_self : (a : ℤ) → with_sign (is_negative a) (magnitude a) ≡ a
with_sign_self (pos n) = refl
with_sign_self (negsuc n) = ground arith

pub magnitude-*ℤ : (a b : ℤ) → magnitude (a *ℤ b) ≡ magnitude a * magnitude b
magnitude-*ℤ a b = ap magnitude (*ℤ_signed a b) ∙ magnitude-with_sign _ _

pub magnitude-quot : (a b : ℤ) → magnitude (quot a b) ≡ magnitude a / magnitude b
unfolding quot
magnitude-quot a b = magnitude-with_sign _ _

nat_div_mul : (m n : ℕ) → n ≢ 0 → m * n / n ≡ m
nat_div_mul m n h = grind arith

-- A product divided by one of its factors.
pub quot-*ℤ : (a b : ℤ) → b ≢ pos 0 → quot (a *ℤ b) b ≡ a
unfolding quot xor ◌*ℤ◌
quot-*ℤ (pos m) (pos n) h = grind (arith, nat_div_mul m n)
quot-*ℤ (pos m) (negsuc n) h = grind (arith, nat_div_mul m (suc n))
quot-*ℤ (negsuc m) (pos zero) h = absurd (h refl)
quot-*ℤ (negsuc m) (pos (suc n)) h = grind (arith, nat_div_mul (suc m) (suc n))
quot-*ℤ (negsuc m) (negsuc n) h = grind (arith, nat_div_mul (suc m) (suc n))

is_negative-*ℤ_pos : (a : ℤ) (k : ℕ) → 0 < k → is_negative (a *ℤ pos k) ≡ is_negative a
unfolding ◌*ℤ◌
is_negative-*ℤ_pos (pos n) k h = ground arith
is_negative-*ℤ_pos (negsuc n) (suc k) h = ground arith
is_negative-*ℤ_pos (negsuc n) zero h = absurd (omega arith)

-- A common positive factor cancels.
pub quot-*ℤ_cancel : (a b : ℤ) (k : ℕ) → 0 < k → quot (a *ℤ pos k) (b *ℤ pos k) ≡ quot a b
unfolding quot
quot-*ℤ_cancel a b k h = rw (
  is_negative-*ℤ_pos a k h,
  is_negative-*ℤ_pos b k h,
  magnitude-*ℤ a (pos k),
  magnitude-*ℤ b (pos k),
  mul-div-mul_right (magnitude a) (magnitude b) h,
)

pub *ℤ_comm : (a b : ℤ) → a *ℤ b ≡ b *ℤ a
unfolding ◌*ℤ◌
*ℤ_comm a b = ground arith

sign_of_product :
    (s t : Bool) (m n : ℕ)
    → with_sign (xor (is_negative (with_sign s m)) t) (m * n) ≡ with_sign (xor s t) (m * n)
unfolding xor
sign_of_product false t m n = refl
sign_of_product true t zero n = ground arith
sign_of_product true t (suc m) n = ground arith

rotate_product : (m n k : ℕ) → m * n * k ≡ n * k * m
rotate_product m n k = omega arith

pub magnitude_zero : (n : ℤ) → magnitude n ≡ 0 → n ≡ pos 0
magnitude_zero n h = ground arith

positive_product : (m k : ℕ) → 0 < k → m * k ≡ 0 → m ≡ 0
positive_product m k h e = grind arith

-- A product of three by signs and magnitudes.
*ℤ_signed_three :
    (a b c : ℤ)
    → a *ℤ b *ℤ c
      ≡ with_sign
          (xor (xor (is_negative a) (is_negative b)) (is_negative c))
          (magnitude a * magnitude b * magnitude c)
*ℤ_signed_three a b c =
    rw (*ℤ_signed (a *ℤ b) c, magnitude-*ℤ a b, *ℤ_signed a b)
      (sign_of_product (xor (is_negative a) (is_negative b)) (is_negative c)
        (magnitude a * magnitude b) (magnitude c))

xor_rotate : (s t u : Bool) → xor (xor s t) u ≡ xor (xor t u) s
unfolding xor
xor_rotate s t u = ground arith

*ℤ_rotate : (a b c : ℤ) → a *ℤ b *ℤ c ≡ b *ℤ c *ℤ a
*ℤ_rotate a b c = rw (
  *ℤ_signed_three a b c,
  *ℤ_signed_three b c a,
  xor_rotate (is_negative a) (is_negative b) (is_negative c),
  rotate_product (magnitude a) (magnitude b) (magnitude c),
)

pub *ℤ_assoc : (a b c : ℤ) → a *ℤ b *ℤ c ≡ a *ℤ (b *ℤ c)
*ℤ_assoc a b c = *ℤ_rotate a b c ∙ *ℤ_comm (b *ℤ c) a

pub *ℤ_right_comm : (a b c : ℤ) → a *ℤ b *ℤ c ≡ a *ℤ c *ℤ b
*ℤ_right_comm a b c = *ℤ_assoc a b c ∙ ap (◌*ℤ◌ a) (*ℤ_comm b c) ∙ sym (*ℤ_assoc a c b)

pub *ℤ-ne-zero : (n : ℤ) (k : ℕ) → n ≢ pos 0 → 0 < k → n *ℤ pos k ≢ pos 0
*ℤ-ne-zero n k h p e = h (magnitude_zero n (positive_product (magnitude n) k p (vanishes e)))
  where
    vanishes : n *ℤ pos k ≡ pos 0 → magnitude n * k ≡ 0
    vanishes e = sym (magnitude-*ℤ n (pos k)) ∙ ap magnitude e
