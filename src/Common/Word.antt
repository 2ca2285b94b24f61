-- ===== src/Common/Word.antt =====
-- `std::int64_t`, the type `micro_units` (common/include/common/quantity.hpp).
use molar_tracker.Base.{ℕ, ◌-◌, ◌%◌, ◌^◌, ◌≤◌, ◌<◌, ◌≡◌, arith, ltb, if◌then◌else◌}
use molar_tracker.Base.Int.{ℤ, pos, negsuc, pos_part, neg_part, sub_ℕ, magnitude}

-- The values of the type: -2^63 up to 2^63 - 1.
abbrev pub FitsInt64 : ℤ → Type 0
FitsInt64 a = (pos_part a < 2 ^ 63) × (neg_part a ≤ 2 ^ 63)

-- The residue modulo 2^64.
abbrev residue : ℤ → ℕ
residue (pos n) = n % 2 ^ 64
residue (negsuc n) = 2 ^ 64 - 1 - n % 2 ^ 64

-- `static_cast<std::int64_t>` of a wider integer.
unfoldable pub wrap_int64 : ℤ → ℤ
wrap_int64 a = if ltb (residue a) (2 ^ 63) then pos (residue a) else sub_ℕ (residue a) (2 ^ 64)

pub wrap_int64-eq_of_fits : (a : ℤ) → FitsInt64 a → wrap_int64 a ≡ a
unfolding wrap_int64
wrap_int64-eq_of_fits (pos n) h = ground arith
wrap_int64-eq_of_fits (negsuc n) h = ground arith

pub wrap_int64-FitsInt64 : (a : ℤ) → FitsInt64 (wrap_int64 a)
unfolding wrap_int64
wrap_int64-FitsInt64 (pos n) = ground arith
wrap_int64-FitsInt64 (negsuc n) = ground arith

pub FitsInt64-of_magnitude : (a : ℤ) → magnitude a < 2 ^ 63 → FitsInt64 a
FitsInt64-of_magnitude (pos n) h = omega arith
FitsInt64-of_magnitude (negsuc n) h = omega arith
