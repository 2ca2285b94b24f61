-- ===== src/Finance/Pnl/Option/Accounts.antt =====
-- The quantity that is open under each key, as trades open and close legs; and that no two legs
-- share a key.
use molar_tracker.Base.{
  List, [], ◌∷◌, Bool, false, if◌then◌else◌, ◌≡◌, refl, arith, none, some, inl, inr, Bool-cases,
  ◌∙◌, subst, not,
}
use molar_tracker.Base.Int.{ℤ, pos, ◌+ℤ◌, ◌-ℤ◌, int_laws, eqb_ℤ→eq}
use molar_tracker.Common.Quantity.{add, sub, is_zero}
use molar_tracker.Finance.Pnl.State.{OptionTrade, OpenOptionLeg}
use molar_tracker.Finance.Pnl.Option.{Found, behind, add_leg, reduce_leg}
use molar_tracker.Finance.Pnl.Option.Legs.{
  Key, key_eq, leg_key, trade_key, first_leg, open_under, key_eq_sound, has_leg,
}

-- The legs after a closing trade, for what the search found.
abbrev pub closed_legs : OptionTrade → List OpenOptionLeg → Found → List OpenOptionLeg
closed_legs t ls none = ls
closed_legs t ls (some (before, l, after)) = reduce_leg t before l after

-- A quantity that counts for one key only.
abbrev pub under : Key → Key → ℤ → ℤ
under j k q = if key_eq j k then q else pos 0

zero_add : (a : ℤ) → a ≡ pos 0 +ℤ a
zero_add a = omega int_laws

pub add_leg-behind :
    (t : OptionTrade) (l : OpenOptionLeg) (ls : List OpenOptionLeg) (f : Found)
    → add_leg t (l ∷ ls) (behind l f) ≡ l ∷ add_leg t ls f
unfolding add_leg
add_leg-behind t l ls none = refl
add_leg-behind t l ls (some (before, hit, after)) = refl

pub closed_legs-behind :
    (t : OptionTrade) (l : OpenOptionLeg) (ls : List OpenOptionLeg) (f : Found)
    → closed_legs t (l ∷ ls) (behind l f) ≡ l ∷ closed_legs t ls f
unfolding reduce_leg
closed_legs-behind t l ls none = refl
closed_legs-behind t l ls (some (before, hit, after)) = ground arith

opened_head :
    (t : OptionTrade) (j : Key) (l : OpenOptionLeg) (ls : List OpenOptionLeg)
    → open_under j (add_leg t (l ∷ ls) (some ([], l, ls)))
      ≡ open_under j (l ∷ ls) +ℤ under (leg_key l) j t.quantity.value
unfolding open_under add_leg add
opened_head t j l ls = elim (Bool-cases (key_eq (leg_key l) j)) [
  | inl e ↦ rw e (omega int_laws)
  | inr e ↦ rw e (omega int_laws)
]

opened_new :
    (t : OptionTrade) (j : Key)
    → open_under j (add_leg t [] none) ≡ under (trade_key t.buy_sell t) j t.quantity.value
unfolding open_under add_leg
opened_new t j = elim (Bool-cases (key_eq (trade_key t.buy_sell t) j)) [
  | inl e ↦ rw e (omega int_laws)
  | inr e ↦ rw e
]

open_under-cons :
    (j : Key) (l : OpenOptionLeg) (ls ms : List OpenOptionLeg) (q : ℤ)
    → open_under j ls ≡ open_under j ms +ℤ q
    → open_under j (l ∷ ls) ≡ open_under j (l ∷ ms) +ℤ q
unfolding open_under
open_under-cons j l ls ms q h = elim (Bool-cases (key_eq (leg_key l) j)) [
  | inl e ↦ rw (e, h) (omega int_laws)
  | inr e ↦ rw e h
]

-- Opening adds the trade's quantity under the trade's key, and leaves every other key alone.
pub open_under-add_leg :
    (t : OptionTrade) (j k : Key) (ls : List OpenOptionLeg)
    → trade_key t.buy_sell t ≡ k
    → open_under j (add_leg t ls (first_leg k ls)) ≡ open_under j ls +ℤ under k j t.quantity.value
unfolding open_under first_leg
open_under-add_leg t j k [] h =
    subst (λ x. open_under j (add_leg t [] none) ≡ pos 0 +ℤ under x j t.quantity.value) h
      (opened_new t j ∙ zero_add _)
open_under-add_leg t j k (l ∷ ls) h = elim (Bool-cases (key_eq (leg_key l) k)) [
  | inl e ↦ rw e (
      subst
        (λ x.
          open_under j (add_leg t (l ∷ ls) (some ([], l, ls)))
          ≡ open_under j (l ∷ ls) +ℤ under x j t.quantity.value)
        (key_eq_sound (leg_key l) k e) (opened_head t j l ls))
  | inr e ↦
      rw (e, add_leg-behind t l ls (first_leg k ls))
        (open_under-cons j l _ ls _ (open_under-add_leg t j k ls h))
]

open_under-cons_sub :
    (j : Key) (l : OpenOptionLeg) (ls ms : List OpenOptionLeg) (q : ℤ)
    → open_under j ls ≡ open_under j ms -ℤ q
    → open_under j (l ∷ ls) ≡ open_under j (l ∷ ms) -ℤ q
unfolding open_under
open_under-cons_sub j l ls ms q h = elim (Bool-cases (key_eq (leg_key l) j)) [
  | inl e ↦ rw (e, h) (omega int_laws)
  | inr e ↦ rw e h
]

closed_head :
    (t : OptionTrade) (j : Key) (l : OpenOptionLeg) (ls : List OpenOptionLeg)
    → open_under j (reduce_leg t [] l ls)
      ≡ open_under j (l ∷ ls) -ℤ under (leg_key l) j t.quantity.value
unfolding open_under reduce_leg sub is_zero
closed_head t j l ls = grind (int_laws, eqb_ℤ→eq)

-- Closing takes the trade's quantity off the trade's key if a leg is found, and leaves every other
-- key alone.
pub open_under-closed_legs :
    (t : OptionTrade) (j k : Key) (ls : List OpenOptionLeg)
    → open_under j (closed_legs t ls (first_leg k ls))
      ≡ open_under j ls -ℤ (if has_leg k ls then under k j t.quantity.value else pos 0)
unfolding open_under first_leg has_leg
open_under-closed_legs t j k [] = omega int_laws
open_under-closed_legs t j k (l ∷ ls) = elim (Bool-cases (key_eq (leg_key l) k)) [
  | inl e ↦ rw e (
      subst
        (λ x.
          open_under j (reduce_leg t [] l ls) ≡ open_under j (l ∷ ls) -ℤ under x j t.quantity.value)
        (key_eq_sound (leg_key l) k e) (closed_head t j l ls))
  | inr e ↦
      rw (e, closed_legs-behind t l ls (first_leg k ls))
        (open_under-cons_sub j l _ ls _ (open_under-closed_legs t j k ls))
]

-- Whether the search finds a leg that still holds something.
abbrev pub finds_open : Found → Bool
finds_open none = false
finds_open (some (before, l, after)) = not (is_zero l.qty)
