-- ===== src/Settings/MapParam.antt =====
-- Parameters under keys, with validators (settings/include/settings/params/map_param.tpp), and the
-- validator of shortcuts (settings/src/settings/shortcut_settings.cpp).
pub mod Keys
pub mod Shortcuts
use molar_tracker.Base.{
  Option, none, some, List, [], ◌∷◌, ◌++◌, Bool, true, false, ◌&&◌, not, if◌then◌else◌, any, map,
  Result, ok, err,
}
use molar_tracker.Base.Text.{Text, text_eq}
use molar_tracker.Settings.Param.{
  ParamCore, Notice, is_dirty, commit, reset_to_default, get, ParamException,
}
use molar_tracker.Settings.Param
use molar_tracker.Settings.NumericParam.{ParamError}

-- `ParamMap<Value>`, in the order in which the hash table is gone through.
abbrev pub ParamMap {ℓ} : Type ℓ → Type ℓ
ParamMap V = List (Text × ParamCore V)

-- What stops a call: an error that it returns, or an exception.
pub data Stop : Type 0 where
  returned : ParamError → Stop
  thrown : ParamException → Stop

-- `ValidatorFunc`: `none` is success.
abbrev pub Validator {ℓ} : Type ℓ → Type ℓ
Validator V = ParamCore V → ParamMap V → Option Stop

pub record MapParam {ℓ} (V : Type ℓ) : Type ℓ where
  pub key : Text
  pub title : Text
  pub description : Text
  pub params : ParamMap V
  pub validators : List (Validator V)

module _ {ℓ} {V : Type ℓ} where
  -- `_params.at(key)`, with `none` for a missing key.
  unfoldable pub param_at : ParamMap V → Text → Option (ParamCore V)
  param_at [] k = none
  param_at ((j, p) ∷ m) k = if text_eq j k then some p else param_at m k

  -- `_params.addUnchecked`, which keeps a parameter that is there.
  unfoldable pub add_param_unchecked : ParamMap V → Text → ParamCore V → ParamMap V
  add_param_unchecked m k p = elim (param_at m k) [ none ↦ m ++ (k, p) ∷ [] | some q ↦ m ]

  -- A write through the reference that `at` returns.
  unfoldable pub write_param : ParamMap V → Text → ParamCore V → ParamMap V
  write_param [] k p = []
  write_param ((j, q) ∷ m) k p =
      let rest = write_param m k p in if text_eq j k then (j, p) ∷ m else (j, q) ∷ rest

  -- The loop over the validators: the first error, if there is one.
  unfoldable pub validate : List (Validator V) → ParamCore V → ParamMap V → Option Stop
  validate [] p m = none
  validate (f ∷ fs) p m = elim (f p m) [ some e ↦ some e | none ↦ validate fs p m ]

  abbrev pub add_validator : Validator V → MapParam V → MapParam V
  add_validator f m = record m { validators = m.validators ++ f ∷ [] }

  unfoldable pub add_param : ParamCore V → MapParam V → Option Stop × MapParam V
  add_param p m = elim (validate m.validators p m.params) [
    | some e ↦ (some e, m)
    | none ↦ (none, record m { params = add_param_unchecked m.params p.key p })
  ]

  abbrev pub commit_pair : Text × ParamCore V → Text × ParamCore V
  commit_pair (k, p) = (k, commit p)

  unfoldable pub commit_map : MapParam V → MapParam V
  commit_map m = record m { params = map commit_pair m.params }

module _ {ℓ} {V : Type ℓ} (equals : V → V → Bool) where
  unfoldable pub is_dirty_map : MapParam V → Bool
  is_dirty_map m = any (λ e. is_dirty equals e.1) m.params

  abbrev reset_pair : Text × ParamCore V → Text × ParamCore V
  reset_pair (k, p) = (k, (reset_to_default equals p).0)

  unfoldable pub reset_map : MapParam V → MapParam V
  reset_map m = record m { params = map reset_pair m.params }

  -- `setAt`: each validator judges a copy with the new value beside the parameters as they are; what
  -- subscribers of a copy are told is left out.
  unfoldable pub set_under : Text → V → MapParam V → Option Stop × MapParam V × List (Notice V)
  set_under k v m = elim (param_at m.params k) [
    | none ↦ (some (returned ParamError.param_not_found), m, [])
    | some p ↦
        let r = Param.set equals v p in
        elim (validate m.validators r.0 m.params) [
          | some e ↦ (some e, m, [])
          | none ↦ (none, record m { params = write_param m.params k r.0 }, r.1)
        ]
  ]

-- The validator of `ShortcutSettings`, for shortcuts with their `==`: a new shortcut other than the
-- default one must not be among those of any parameter that is there.
module _ {S : Type 0} (same : S → S → Bool) (default : S) where
  abbrev pub clash : List S → List S → Bool
  clash old new = any (λ o. any (λ n. not (same n default) && same o n) new) old

  -- The inner loops, for a stored set of shortcuts: the new set is read only if the old one is not
  -- empty, and reading a parameter without value and default throws.
  abbrev pub compare_new : List S → Result ParamException (List S) → Option Stop → Option Stop
  compare_new old (err e) rest = some (thrown e)
  compare_new old (ok new) rest =
      if clash old new then some (returned ParamError.duplicate_value) else rest

  abbrev pub compare_old :
      Result ParamException (List S) → Result ParamException (List S) → Option Stop → Option Stop
  compare_old (err e) new rest = some (thrown e)
  compare_old (ok []) new rest = rest
  compare_old (ok (o ∷ os)) new rest = compare_new (o ∷ os) new rest

  unfoldable pub shortcut_validator : Validator (List S)
  shortcut_validator p [] = none
  shortcut_validator p ((k, q) ∷ m) = compare_old (get q) (get p) (shortcut_validator p m)
