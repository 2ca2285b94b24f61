-- ===== src/Settings/Param.antt =====
-- A parameter with a value of its own, a default and the value last saved
-- (settings/include/settings/params/param_core.tpp and param_core.hpp).
pub mod Laws
use molar_tracker.Base.{
  Option, none, some, List, [], ◌∷◌, Bool, true, false, not, if◌then◌else◌, Result, err, ok,
}
use molar_tracker.Base.Text.{Text}

pub record ParamCore {ℓ} (T : Type ℓ) : Type ℓ where
  pub key : Text
  pub title : Text
  pub description : Text
  pub value : Option T
  pub default_value : Option T
  pub base_line : Option T
  pub is_reboot_required : Bool

-- What subscribers are told: `OnDirtyChanged`, `ParamValueChanged`, `ParamUnsetWithoutDefault` and
-- `ParamOptionalChanged`.
pub data Notice {ℓ} (T : Type ℓ) : Type ℓ where
  dirty_changed : Bool → Notice T
  value_changed : T → Notice T
  unset_without_default : Notice T
  optional_changed : Option T → Notice T

-- `ParamException` of `get`
pub data ParamException : Type 0 where
  no_value : ParamException
  wrong_size : ParamException
  index_out_of_range : ParamException

-- The constructor with a description.
abbrev pub param_core {ℓ} : {T : Type ℓ} → Text → Text → Text → ParamCore T
param_core key title description = record {
  key = key;
  title = title;
  description = description;
  value = none;
  default_value = none;
  base_line = none;
  is_reboot_required = false;
}

-- The first of two optional values that is there.
abbrev or_else {ℓ} : {A : Type ℓ} → Option A → Option A → Option A
or_else none b = b
or_else (some a) b = some a

unfoldable pub get_optional {ℓ} : {T : Type ℓ} → ParamCore T → Option T
get_optional p = or_else p.value p.default_value

unfoldable pub get {ℓ} : {T : Type ℓ} → ParamCore T → Result ParamException T
get p = elim p.value [
  | some v ↦ ok v
  | none ↦ elim p.default_value [ some d ↦ ok d | none ↦ err no_value ]
]

unfoldable pub commit {ℓ} : {T : Type ℓ} → ParamCore T → ParamCore T
commit p = record p { base_line = p.value }

unfoldable pub set_default {ℓ} : {T : Type ℓ} → Option T → ParamCore T → ParamCore T
set_default d p = record p { default_value = d }

-- `get` in `_notifySubscribers`, with its `catch`.
abbrev notice_of {ℓ} : {T : Type ℓ} → Result ParamException T → Notice T
notice_of (ok v) = Notice.value_changed v
notice_of (err e) = Notice.unset_without_default

-- `equals` is `_equals`, which compares floating-point numbers up to a small difference.
module _ {ℓ} {T : Type ℓ} (equals : T → T → Bool) where
  unfoldable pub is_dirty : ParamCore T → Bool
  is_dirty p = elim p.value [
    | none ↦ elim p.base_line [ none ↦ false | some b ↦ true ]
    | some v ↦ elim p.base_line [ none ↦ true | some b ↦ not (equals v b) ]
  ]

  unfoldable pub notify_subscribers : ParamCore T → List (Notice T)
  notify_subscribers p =
      Notice.dirty_changed (is_dirty p)
      ∷ notice_of (get p)
      ∷ Notice.optional_changed (get_optional p)
      ∷ []

  unfoldable pub is_current : ParamCore T → T → Bool
  unfolding get_optional
  is_current p v = elim (get_optional p) [ none ↦ false | some c ↦ equals c v ]

  unfoldable pub set : T → ParamCore T → ParamCore T × List (Notice T)
  set v p =
      let p₁ = record p { value = some v } in
      if is_current p v then (p, []) else (p₁, notify_subscribers p₁)

  unfoldable pub unset : ParamCore T → ParamCore T × List (Notice T)
  unset p = let p₁ = record p { value = none } in (p₁, notify_subscribers p₁)

  unfoldable pub reset_to_default : ParamCore T → ParamCore T × List (Notice T)
  unfolding unset
  reset_to_default p = elim p.default_value [ none ↦ (p, []) | some d ↦ unset p ]
