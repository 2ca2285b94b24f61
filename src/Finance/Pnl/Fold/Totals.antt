-- ===== src/Finance/Pnl/Fold/Totals.antt =====
-- The fold over all events: it succeeds on trades of one currency and one contract size, and what
-- it adds up.
use molar_tracker.Base.{
  ◌≡◌, ◌≢◌, refl, ◌∙◌, ap, List, [], ◌∷◌, ◌++◌, inr, Yields, Yields-weaken, Yields-ok, ok, err,
  ◌>>=◌, ◌⊎◌,
}
use molar_tracker.Base.Int.{ℤ, pos, ◌+ℤ◌, int_laws}
use molar_tracker.Common.Currency.{Currency}
use molar_tracker.Common.Exception.{Throws}
use molar_tracker.Common.Quantity.{Doubles}
use molar_tracker.Finance.Pnl.State.{Trade, OptionTrade, PositionEvent, PositionState}
use molar_tracker.Finance.Pnl.Currency.{InCurrency, StockInCurrency, OptionInCurrency}
use molar_tracker.Finance.Pnl.Stock.Effect.{apply_stock-StockEffect}
use molar_tracker.Finance.Pnl.Option.{lift, inconsistent_contract_size}
use molar_tracker.Finance.Pnl.Option.Distinct.{Distinct}
use molar_tracker.Finance.Pnl.Option.Dispatch.{
  apply_option-OptionTradeEffect, apply_option-inconsistent, legs_after_trade-Distinct,
}
use molar_tracker.Finance.Pnl.Fold.{apply_trade, fold_events}

-- The shares and the fees that a trade brings.
abbrev pub shares : Trade → ℤ
shares (Trade.stock t) = t.quantity.value
shares (Trade.option t) = pos 0

abbrev pub trade_fees : Trade → ℤ
trade_fees (Trade.stock t) = t.fees.amount
trade_fees (Trade.option t) = t.fees.amount

abbrev pub total : (Trade → ℤ) → List PositionEvent → ℤ
total f [] = pos 0
total f (e ∷ es) = f e.trade +ℤ total f es

-- A trade in currency `c`, of contract size `k` if it is one in options.
abbrev pub TradeFits : Currency → ℤ → Trade → Type 0
TradeFits c k (Trade.stock t) = StockInCurrency c t
TradeFits c k (Trade.option t) = OptionInCurrency c t × (t.contract_size ≡ k)

abbrev pub AllFit : Currency → ℤ → List PositionEvent → Type 0
AllFit c k [] = Unit
AllFit c k (e ∷ es) = TradeFits c k e.trade × AllFit c k es

-- What the fold keeps.
pub record IsSound (c : Currency) (k : ℤ) (s : PositionState) : Type 0 where
  pub currency : InCurrency c s
  pub contract_size : (s.contract_size ≡ pos 0) ⊎ (s.contract_size ≡ k)
  pub distinct : Distinct s.open_option_legs

pub record Adds (s : PositionState) (quantity fees : ℤ) (s' : PositionState) : Type 0 where
  pub quantities : s'.open_quantity.value ≡ s.open_quantity.value +ℤ quantity
  pub all_fees : s'.fees.amount ≡ s.fees.amount +ℤ fees

zero_right : (a : ℤ) → a ≡ a +ℤ pos 0
zero_right a = omega int_laws

Adds-trans :
    (s r s' : PositionState) (p q f g : ℤ)
    → Adds s p f r
    → Adds r q g s'
    → Adds s (p +ℤ q) (f +ℤ g) s'
Adds-trans s r s' p q f g h k = record {
  quantities = rw (k.quantities, h.quantities) (omega int_laws);
  all_fees = rw (k.all_fees, h.all_fees) (omega int_laws);
}

lift-Yields :
    {m : Throws PositionState} {P : PositionState → Type 0} → Yields m P → Yields (lift m) P
lift-Yields y = record { value = y.value; returned = ap lift y.returned; holds = y.holds }

module _ (c : Currency) (k : ℤ) (d : Doubles) where
  -- One trade of the right currency and contract size is applied, and keeps the position sound.
  apply_trade-IsSound :
      (s : PositionState) (t : Trade)
      → IsSound c k s
      → TradeFits c k t
      → Yields (apply_trade d s t) (λ s'. IsSound c k s' × Adds s (shares t) (trade_fees t) s')
  unfolding apply_trade
  apply_trade-IsSound s (Trade.stock t) hs ht =
      Yields-weaken _ (lift-Yields (apply_stock-StockEffect c d s t hs.currency ht)) λ r e. (
        record {
          currency = e.currency;
          contract_size = rw e.keeps.contract_size hs.contract_size;
          distinct = rw e.keeps.legs hs.distinct;
        },
        record { quantities = e.quantity; all_fees = e.fees },
      )
  apply_trade-IsSound s (Trade.option t) hs ht =
      Yields-weaken _
        (apply_option-OptionTradeEffect c s t hs.currency ht.0 (rw ht.1 hs.contract_size))
        λ r e. (
          record {
            currency = e.currency;
            contract_size = inr (e.contract_size ∙ ht.1);
            distinct = rw e.legs (legs_after_trade-Distinct t.action s t hs.distinct);
          },
          record {
            quantities = ap (λ q. q.value) e.quantity ∙ zero_right s.open_quantity.value;
            all_fees = e.fees;
          },
        )

  -- The fold of trades that fit never fails: the position stays sound, its open quantity is the sum
  -- of the stock quantities, and its fees are the sum of all fees.
  pub fold_events-total :
      (s : PositionState) (es : List PositionEvent)
      → IsSound c k s
      → AllFit c k es
      → Yields
          (fold_events d s es)
          (λ s'. IsSound c k s' × Adds s (total shares es) (total trade_fees es) s')
  unfolding fold_events
  fold_events-total s [] hs ha =
      Yields-ok _ (hs, record { quantities = omega int_laws; all_fees = omega int_laws })
  fold_events-total s (e ∷ es) hs ha =
      let r = apply_trade-IsSound s e.trade hs ha.0 in
      let rest = fold_events-total r.value es r.holds.0 ha.1 in
      rw r.returned
        (Yields-weaken _ rest λ s' h. (h.0, Adds-trans s r.value s' _ _ _ _ r.holds.1 h.1))

module _ (d : Doubles) where
  fold_events-append :
      (s : PositionState) (es fs : List PositionEvent)
      → fold_events d s (es ++ fs) ≡ (fold_events d s es >>= λ r. fold_events d r fs)
  unfolding fold_events
  fold_events-append s [] fs = refl
  fold_events-append s (e ∷ es) fs =
      elim (apply_trade d s e.trade)
        as (λ m.
          (m >>= λ r. fold_events d r (es ++ fs))
          ≡ ((m >>= λ r. fold_events d r es) >>= λ r. fold_events d r fs)) [
            | ok r ↦ fold_events-append r es fs
            | err x ↦ refl
          ]

  -- Once a contract size is set, a later trade of another size fails the fold, whatever follows.
  pub fold_events-inconsistent :
      (s r : PositionState) (es fs : List PositionEvent) (e : PositionEvent) (t : OptionTrade)
      → fold_events d s es ≡ ok r
      → e.trade ≡ Trade.option t
      → r.contract_size ≢ pos 0
      → r.contract_size ≢ t.contract_size
      → fold_events d s (es ++ (e ∷ fs)) ≡ err inconsistent_contract_size
  unfolding fold_events apply_trade
  fold_events-inconsistent s r es fs e t h he h0 hk =
      rw (fold_events-append s es (e ∷ fs), h, he, apply_option-inconsistent r t h0 hk)
