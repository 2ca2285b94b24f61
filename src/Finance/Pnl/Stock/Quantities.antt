-- ===== src/Finance/Pnl/Stock/Quantities.antt =====
-- The quantities of a reducing trade.
use molar_tracker.Base.{◌≡◌, Bool, false, if◌then◌else◌, arith, inl, inr, ◌⊎◌}
use molar_tracker.Base.Int.{pos, ◌+ℤ◌, ◌-ℤ◌, neg, ltb_ℤ}
use molar_tracker.Common.Quantity.{
  Quantity, Doubles, is_zero, is_positive, abs_quantity, sub, negate, min_quantity,
}
use molar_tracker.Finance.Pnl.Stock.{same}

pub abs_quantity-is_zero : (q : Quantity) → is_zero (abs_quantity q) ≡ is_zero q
unfolding is_zero abs_quantity neg
abs_quantity-is_zero q = ground arith

-- The quantity that a reducing trade leaves, as `apply_reducing` and `apply_remainder` compute it
-- from the signs and the part `closed` that the trade closes.
abbrev pub left_quantity : Bool → Quantity → Quantity → Quantity
left_quantity open_positive o closed = sub o (if open_positive then closed else negate closed)

abbrev pub final_quantity : Bool → Bool → Quantity → Quantity → Quantity → Quantity
final_quantity open_positive trade_positive o t closed =
    if is_zero (sub (abs_quantity t) closed)
    then left_quantity open_positive o closed
    else if trade_positive
    then sub (abs_quantity t) closed
    else negate (sub (abs_quantity t) closed)

closing_all_of_trade :
    (o t : Quantity)
    → same (ltb_ℤ (pos 0) o.value) (ltb_ℤ (pos 0) t.value) ≡ false
    → is_zero o ≡ false
    → is_zero t ≡ false
    → (final_quantity (ltb_ℤ (pos 0) o.value) (ltb_ℤ (pos 0) t.value) o t (abs_quantity t)).value
      ≡ o.value +ℤ t.value
unfolding is_zero sub negate abs_quantity ◌-ℤ◌ ◌+ℤ◌ neg
closing_all_of_trade o t opposite zo zt = ground arith

closing_all_open :
    (o t : Quantity)
    → same (ltb_ℤ (pos 0) o.value) (ltb_ℤ (pos 0) t.value) ≡ false
    → is_zero o ≡ false
    → is_zero t ≡ false
    → (final_quantity (ltb_ℤ (pos 0) o.value) (ltb_ℤ (pos 0) t.value) o t (abs_quantity o)).value
      ≡ o.value +ℤ t.value
unfolding is_zero sub negate abs_quantity ◌-ℤ◌ ◌+ℤ◌ neg
closing_all_open o t opposite zo zt = ground arith

module _ (d : Doubles) where
  pub is_positive-eq-ltb : (q : Quantity) → is_positive d q ≡ ltb_ℤ (pos 0) q.value
  unfolding is_positive
  is_positive-eq-ltb q = d.signed q.value

  min_quantity_cases : (p q : Quantity) → (min_quantity d p q ≡ p) ⊎ (min_quantity d p q ≡ q)
  unfolding min_quantity
  min_quantity_cases p q = ground arith

  -- Whichever part is closed, the trade's quantity is added to the open quantity.
  pub final_quantity-eq-sum :
      (o t : Quantity)
      → same (is_positive d o) (is_positive d t) ≡ false
      → is_zero o ≡ false
      → is_zero t ≡ false
      → (final_quantity
          (is_positive d o)
          (is_positive d t)
          o
          t
          (min_quantity d (abs_quantity t) (abs_quantity o))).value
        ≡ o.value +ℤ t.value
  final_quantity-eq-sum o t h zo zt =
      let opposite = rw (is_positive-eq-ltb o, is_positive-eq-ltb t) at h in
      rw (is_positive-eq-ltb o, is_positive-eq-ltb t)
        (elim (min_quantity_cases (abs_quantity t) (abs_quantity o)) [
          | inl e ↦ rw e (closing_all_of_trade o t opposite zo zt)
          | inr e ↦ rw e (closing_all_open o t opposite zo zt)
        ])
