-- ===== src/Finance/Pnl/Option/Distinct.antt =====
-- No two open legs share a key, and every strike price stays in the position's currency.
use molar_tracker.Base.{List, [], ◌∷◌, false, ◌≡◌, arith, inl, inr, Bool-cases, subst, ◌∙◌, sym}
use molar_tracker.Common.Currency.{Currency}
use molar_tracker.Common.Cash.Compatible.{Compatible}
use molar_tracker.Finance.Pnl.State.{OptionTrade, OpenOptionLeg}
use molar_tracker.Finance.Pnl.Currency.{LegsInCurrency}
use molar_tracker.Finance.Pnl.Option.{add_leg, reduce_leg}
use molar_tracker.Finance.Pnl.Option.Legs.{Key, key_eq, leg_key, trade_key, first_leg}
use molar_tracker.Finance.Pnl.Option.Accounts.{closed_legs, add_leg-behind, closed_legs-behind}

-- No leg has the key.
abbrev pub Absent : Key → List OpenOptionLeg → Type 0
Absent k [] = Unit
Absent k (l ∷ ls) = (key_eq (leg_key l) k ≡ false) × Absent k ls

abbrev pub Distinct : List OpenOptionLeg → Type 0
Distinct [] = Unit
Distinct (l ∷ ls) = Absent (leg_key l) ls × Distinct ls

key_eq_comm : (j k : Key) → key_eq j k ≡ key_eq k j
key_eq_comm j k = ground arith

add_leg-Absent :
    (t : OptionTrade) (j k : Key) (ls : List OpenOptionLeg)
    → trade_key t.buy_sell t ≡ k
    → key_eq k j ≡ false
    → Absent j ls
    → Absent j (add_leg t ls (first_leg k ls))
unfolding first_leg add_leg
add_leg-Absent t j k [] h n a = (subst (λ x. key_eq x j ≡ false) (sym h) n, tt)
add_leg-Absent t j k (l ∷ ls) h n a = elim (Bool-cases (key_eq (leg_key l) k)) [
  | inl e ↦ rw e a
  | inr e ↦ rw (e, add_leg-behind t l ls (first_leg k ls)) (a.0, add_leg-Absent t j k ls h n a.1)
]

-- Opening a leg keeps the keys distinct.
pub add_leg-Distinct :
    (t : OptionTrade) (k : Key) (ls : List OpenOptionLeg)
    → trade_key t.buy_sell t ≡ k
    → Distinct ls
    → Distinct (add_leg t ls (first_leg k ls))
unfolding first_leg add_leg
add_leg-Distinct t k [] h d = (tt, tt)
add_leg-Distinct t k (l ∷ ls) h d = elim (Bool-cases (key_eq (leg_key l) k)) [
  | inl e ↦ rw e d
  | inr e ↦
      rw (e, add_leg-behind t l ls (first_leg k ls))
        (
          add_leg-Absent t (leg_key l) k ls h (key_eq_comm k (leg_key l) ∙ e) d.0,
          add_leg-Distinct t k ls h d.1,
        )
]

closed_legs-Absent :
    (t : OptionTrade) (j k : Key) (ls : List OpenOptionLeg)
    → Absent j ls
    → Absent j (closed_legs t ls (first_leg k ls))
unfolding first_leg reduce_leg
closed_legs-Absent t j k [] a = tt
closed_legs-Absent t j k (l ∷ ls) a = elim (Bool-cases (key_eq (leg_key l) k)) [
  | inl e ↦ rw e (ground arith)
  | inr e ↦
      rw (e, closed_legs-behind t l ls (first_leg k ls)) (a.0, closed_legs-Absent t j k ls a.1)
]

-- So does closing one.
pub closed_legs-Distinct :
    (t : OptionTrade) (k : Key) (ls : List OpenOptionLeg)
    → Distinct ls
    → Distinct (closed_legs t ls (first_leg k ls))
unfolding first_leg reduce_leg
closed_legs-Distinct t k [] d = tt
closed_legs-Distinct t k (l ∷ ls) d = elim (Bool-cases (key_eq (leg_key l) k)) [
  | inl e ↦ rw e (ground arith)
  | inr e ↦
      rw (e, closed_legs-behind t l ls (first_leg k ls))
        (closed_legs-Absent t (leg_key l) k ls d.0, closed_legs-Distinct t k ls d.1)
]

module _ (c : Currency) where
  pub add_leg-LegsInCurrency :
      (t : OptionTrade) (k : Key) (ls : List OpenOptionLeg)
      → Compatible c t.strike
      → LegsInCurrency c ls
      → LegsInCurrency c (add_leg t ls (first_leg k ls))
  unfolding first_leg add_leg
  add_leg-LegsInCurrency t k [] ht h = (ht, tt)
  add_leg-LegsInCurrency t k (l ∷ ls) ht h = elim (Bool-cases (key_eq (leg_key l) k)) [
    | inl e ↦ rw e h
    | inr e ↦
        rw (e, add_leg-behind t l ls (first_leg k ls)) (h.0, add_leg-LegsInCurrency t k ls ht h.1)
  ]

  pub closed_legs-LegsInCurrency :
      (t : OptionTrade) (k : Key) (ls : List OpenOptionLeg)
      → LegsInCurrency c ls
      → LegsInCurrency c (closed_legs t ls (first_leg k ls))
  unfolding first_leg reduce_leg
  closed_legs-LegsInCurrency t k [] h = tt
  closed_legs-LegsInCurrency t k (l ∷ ls) h = elim (Bool-cases (key_eq (leg_key l) k)) [
    | inl e ↦ rw e (ground arith)
    | inr e ↦
        rw (e, closed_legs-behind t l ls (first_leg k ls))
          (h.0, closed_legs-LegsInCurrency t k ls h.1)
  ]
