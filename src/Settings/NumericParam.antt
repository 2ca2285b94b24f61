-- ===== src/Settings/NumericParam.antt =====
-- A parameter that is a number within limits (settings/include/settings/params/numeric_param.tpp).
pub mod Limits
use molar_tracker.Base.{
  ℕ, Option, none, some, List, [], Bool, true, false, ◌&&◌, if◌then◌else◌, Result, err, ok,
}
use molar_tracker.Settings.Param
use molar_tracker.Settings.Param.{ParamCore, Notice}

pub record NumericParam {ℓ} (T : Type ℓ) : Type ℓ where
  pub core : ParamCore T
  pub min_value : Option T
  pub max_value : Option T
  pub precision : Option ℕ

-- `ParamErrorType`, without the message.
pub data ParamError : Type 0 where
  invalid_param_value : ParamError
  param_not_found : ParamError
  duplicate_value : ParamError

-- What a number type does: `_equals`, `<=`, and `_applyPrecision`, which rounds floating-point numbers
-- to the decimal places of the parameter and leaves integers alone.
pub record Numbers {ℓ} (T : Type ℓ) : Type ℓ where
  pub equals : T → T → Bool
  pub at_most : T → T → Bool
  pub round : Option ℕ → T → T

abbrev pub set_limits {ℓ} : {T : Type ℓ} → T → T → NumericParam T → NumericParam T
set_limits low high p = record p { min_value = some low; max_value = some high }

abbrev pub set_min_value {ℓ} : {T : Type ℓ} → T → NumericParam T → NumericParam T
set_min_value low p = record p { min_value = some low }

abbrev pub set_max_value {ℓ} : {T : Type ℓ} → T → NumericParam T → NumericParam T
set_max_value high p = record p { max_value = some high }

abbrev pub set_precision {ℓ} : {T : Type ℓ} → ℕ → NumericParam T → NumericParam T
set_precision places p = record p { precision = some places }

module _ {ℓ} {T : Type ℓ} (N : Numbers T) where
  abbrev pub is_within_range : NumericParam T → T → Bool
  is_within_range p v =
      elim p.min_value [ none ↦ true | some low ↦ N.at_most low v ]
      && elim p.max_value [ none ↦ true | some high ↦ N.at_most v high ]

  -- `set`: the error or nothing, the parameter, and what subscribers are told.
  unfoldable pub set_number :
      T → NumericParam T → Option ParamError × NumericParam T × List (Notice T)
  set_number value p =
      let v = N.round p.precision value in
      let c = Param.set N.equals v p.core in
      if is_within_range p v
      then (none, record p { core = c.0 }, c.1)
      else (some ParamError.invalid_param_value, p, [])
