-- ===== src/Settings/NumericParam/Limits.antt =====
-- Numbers stay within their limits (settings/include/settings/params/numeric_param.tpp).
use molar_tracker.Base.{
  ◌≡◌, refl, sym, ◌∙◌, subst, none, some, [], true, false, ◌⊎◌, inl, inr, Bool-cases, arith, ok,
}
use molar_tracker.Settings.Param.{ParamCore, get, set}
use molar_tracker.Settings.Param.Laws.{get-set}
use molar_tracker.Settings.NumericParam.{
  NumericParam, ParamError, Numbers, is_within_range, set_number,
}

module _ {T : Type 0} (N : Numbers T) where
  -- The own value of a parameter, if it has one, is within its limits.
  abbrev pub InLimits : NumericParam T → Type 0
  InLimits p = (v : T) → p.core.value ≡ some v → is_within_range N p v ≡ true

  value-set :
      (v : T) (c : ParamCore T)
      → ((set N.equals v c).0.value ≡ some v) ⊎ ((set N.equals v c).0.value ≡ c.value)
  unfolding set
  value-set v c = ground arith

  some_eq : {a b : T} → some a ≡ some b → a ≡ b
  some_eq h = cc

  kept :
      (p : NumericParam T) (v w : T)
      → is_within_range N p v ≡ true
      → InLimits p
      → (set N.equals v p.core).0.value ≡ some w
      → is_within_range N p w ≡ true
  kept p v w e l h = elim (value-set v p.core) [
    | inl q ↦ subst (λ x. is_within_range N p x ≡ true) (some_eq (sym q ∙ h)) e
    | inr q ↦ l w (sym q ∙ h)
  ]

  -- If values equal themselves, then setting a number either reports nothing, and the rounded number
  -- is within the limits and the parameter reads as a value that equals it; or it reports an invalid
  -- value, the rounded number is not within the limits, and neither the parameter nor its
  -- subscribers see a change. Either way the limits and the precision stay, and a value that was
  -- within them or was not there is within them or not there afterwards.
  pub set_number-InLimits :
      ((a : T) → N.equals a a ≡ true)
      → (value : T) (p : NumericParam T) → InLimits p
      → InLimits (set_number N value p).1
        × ((set_number N value p).1 ≡ record p { core = (set_number N value p).1.core })
        × (((set_number N value p).0 ≡ none)
              × (is_within_range N p (N.round p.precision value) ≡ true)
              × ((w : T) × (get (set_number N value p).1.core ≡ ok w)
                  × (N.equals w (N.round p.precision value) ≡ true))
            ⊎ ((set_number N value p ≡ (some ParamError.invalid_param_value, p, []))
                × (is_within_range N p (N.round p.precision value) ≡ false)))
  unfolding set_number
  set_number-InLimits r value p l =
      let v = N.round p.precision value in
      elim (Bool-cases (is_within_range N p v)) [
        | inl e ↦
            rw e (λ w h. kept p v w e l h, refl, inl (refl, refl, get-set N.equals r v p.core))
        | inr e ↦ rw e (l, refl, inr (refl, refl))
      ]
