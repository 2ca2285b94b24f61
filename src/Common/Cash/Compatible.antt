-- ===== src/Common/Cash/Compatible.antt =====
-- Amounts that are in one currency or in none: arithmetic on them does not throw, and is the
-- arithmetic of their amounts.
use molar_tracker.Base.{◌≡◌, refl, false, arith, ◌⊎◌, inl, Yields, Yields-of_Returns, ok}
use molar_tracker.Base.Int.{◌+ℤ◌, ◌-ℤ◌, neg, eqb_ℤ}
use molar_tracker.Common.Currency.{Currency, currency_eq_refl}
use molar_tracker.Common.Quantity.{Quantity, is_zero, mul_div, div_by, factor}
use molar_tracker.Common.Cash.{
  Cash, no_cash, take_currency, plus, minus, times, over, add_assign, sub_assign, equal,
}

module _ (c : Currency) where
  abbrev pub Compatible : Cash → Type 0
  Compatible a = (a.currency ≡ Currency.unknown) ⊎ (a.currency ≡ c)

  pub take_currency-Compatible :
      (a b : Cash)
      → Compatible a
      → Compatible b
      → Yields (take_currency a b) (λ r. Compatible r × (r.amount ≡ a.amount))
  unfolding take_currency
  take_currency-Compatible a b ha hb = Yields-of_Returns _ _ (ground (arith, currency_eq_refl c))

  pub plus-Compatible :
      (a b : Cash)
      → Compatible a
      → Compatible b
      → Yields (plus a b) (λ r. Compatible r × (r.amount ≡ a.amount +ℤ b.amount))
  unfolding plus take_currency
  plus-Compatible a b ha hb = Yields-of_Returns _ _ (ground (arith, currency_eq_refl c))

  pub minus-Compatible :
      (a b : Cash)
      → Compatible a
      → Compatible b
      → Yields (minus a b) (λ r. Compatible r × (r.amount ≡ a.amount +ℤ neg b.amount))
  unfolding minus take_currency
  minus-Compatible a b ha hb = Yields-of_Returns _ _ (ground (arith, currency_eq_refl c))

  pub add_assign-Compatible :
      (a b : Cash)
      → Compatible a
      → Compatible b
      → Yields (add_assign a b) (λ r. Compatible r × (r.amount ≡ a.amount +ℤ b.amount))
  unfolding add_assign take_currency
  add_assign-Compatible a b ha hb = Yields-of_Returns _ _ (ground (arith, currency_eq_refl c))

  pub sub_assign-Compatible :
      (a b : Cash)
      → Compatible a
      → Compatible b
      → Yields (sub_assign a b) (λ r. Compatible r × (r.amount ≡ a.amount -ℤ b.amount))
  unfolding sub_assign take_currency
  sub_assign-Compatible a b ha hb = Yields-of_Returns _ _ (ground (arith, currency_eq_refl c))

  pub times-Compatible : (a : Cash) (q : Quantity) → Compatible a → Compatible (times a q)
  unfolding times
  times-Compatible a q h = h

  pub over-Compatible :
      (a : Cash) (q : Quantity)
      → Compatible a
      → is_zero q ≡ false
      → Yields (over a q) (λ r. Compatible r × (r.amount ≡ mul_div a.amount factor q.value))
  unfolding over div_by
  over-Compatible a q h nz = Yields-of_Returns _ _ (rw nz (h, refl))

  pub no_cash-Compatible : Compatible no_cash
  no_cash-Compatible = inl refl

  pub equal-Compatible :
      (a b : Cash) → Compatible a → Compatible b → equal a b ≡ ok (eqb_ℤ a.amount b.amount)
  unfolding equal take_currency
  equal-Compatible a b ha hb = ground (arith, currency_eq_refl c)
