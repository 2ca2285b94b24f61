-- ===== src/Common/Cash/Laws.antt =====
-- The algebra of amounts: sums, comparisons, and scaling by whole quantities.
use molar_tracker.Base.{◌≡◌, ◌≢◌, true, false, ok, err, ◌>>=◌, arith, ◌⊎◌, Returns}
use molar_tracker.Base.Int.{ℤ, pos, ◌+ℤ◌, ◌-ℤ◌, ◌*ℤ◌, ◌≤ℤ◌, neg, +ℤ_assoc, +ℤ_comm, int_laws}
use molar_tracker.Common.Exception.{currency_mismatch}
use molar_tracker.Common.Word.{FitsInt64}
use molar_tracker.Common.Currency.{Currency, currency_eq_sound, currency_eq_refl}
use molar_tracker.Common.Quantity.Scaling.{whole, div_by-mul_quantity}
use molar_tracker.Common.Cash.{
  Cash, take_currency, equal, less, plus, minus, times, over, add_assign, sub_assign, max_cash,
  min_cash,
}

-- The sum does not depend on the order of its terms, also in whether it throws.
pub plus_comm : (a b : Cash) → plus a b ≡ plus b a
unfolding plus take_currency
plus_comm a b = ground (arith, +ℤ_comm a.amount b.amount, currency_eq_sound a.currency b.currency)

-- Nor on how the terms are grouped.
pub plus_assoc : (a b c : Cash) → (plus a b >>= λ x. plus x c) ≡ (plus b c >>= λ y. plus a y)
unfolding plus take_currency
plus_assoc a b c = ground (arith, +ℤ_assoc a.amount b.amount c.amount)

sub_as_add : (a b : ℤ) → a -ℤ b ≡ a +ℤ neg b
sub_as_add a b = omega int_laws

add_neg_cancel : (a b : ℤ) → a +ℤ neg b +ℤ b ≡ a
add_neg_cancel a b = omega int_laws

-- `+=` and `-=` compute what `+` and `-` do.
pub assign-eq_operator : (a b : Cash) → (add_assign a b ≡ plus a b) × (sub_assign a b ≡ minus a b)
unfolding add_assign sub_assign plus minus take_currency
assign-eq_operator a b = grind (arith, currency_eq_refl, sub_as_add a.amount b.amount)

-- A difference of amounts in one currency, added back.
pub minus-plus : (a b : Cash) → a.currency ≡ b.currency → (minus a b >>= λ d. plus d b) ≡ ok a
unfolding minus plus take_currency
minus-plus a b e =
    ground (arith, add_neg_cancel a.amount b.amount, currency_eq_sound a.currency b.currency)

-- Equality throws exactly for two known currencies that differ; the order throws for any two that
-- differ.
pub comparison_throws :
    (a b : Cash)
    → a.currency ≢ b.currency
    → (less a b ≡ err currency_mismatch)
      × ((equal a b ≡ err currency_mismatch)
          ⊎ ((a.currency ≡ Currency.unknown) ⊎ (b.currency ≡ Currency.unknown)))
unfolding less equal take_currency
comparison_throws a b h = ground (arith, currency_eq_sound a.currency b.currency)

-- In one currency, exactly one of the three comparisons holds.
pub trichotomy :
    (a b : Cash)
    → a.currency ≡ b.currency
    → ((less a b ≡ ok true) × (equal a b ≡ ok false) × (less b a ≡ ok false))
      ⊎ ((less a b ≡ ok false) × (equal a b ≡ ok true) × (less b a ≡ ok false))
      ⊎ ((less a b ≡ ok false) × (equal a b ≡ ok false) × (less b a ≡ ok true))
unfolding less equal take_currency
trichotomy a b e = ground (arith, currency_eq_refl a.currency)

-- The maximum is an upper bound and is one of the two; the minimum likewise.
pub max_min_cash :
    (a b : Cash)
    → a.currency ≡ b.currency
    → Returns
        (max_cash a b)
        (λ m. (a.amount ≤ℤ m.amount) × (b.amount ≤ℤ m.amount) × ((m ≡ a) ⊎ (m ≡ b)))
      × Returns
          (min_cash a b)
          (λ m. (m.amount ≤ℤ a.amount) × (m.amount ≤ℤ b.amount) × ((m ≡ a) ⊎ (m ≡ b)))
unfolding max_cash min_cash
max_min_cash a b e = rw (← e, currency_eq_refl a.currency) (ground arith, ground arith)

-- Multiplying by a whole number of units and dividing by it again gives the amount back.
pub over-times :
    (c : Cash) (n : ℤ)
    → n ≢ pos 0
    → FitsInt64 c.amount
    → FitsInt64 (c.amount *ℤ n)
    → over (times c (whole n)) (whole n) ≡ ok c
unfolding over times
over-times c n h fa fp = rw (div_by-mul_quantity c.amount n h fa fp)
