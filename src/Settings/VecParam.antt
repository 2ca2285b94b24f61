-- ===== src/Settings/VecParam.antt =====
-- A parameter of several numbers (settings/include/settings/params/numeric_vec_param.tpp).
pub mod Access
use molar_tracker.Base.{
  ℕ, Option, none, some, List, [], ◌∷◌, Bool, true, false, ◌==◌, not, if◌then◌else◌, Result, err,
  ok, any, map, length, set, get_elem?, leb,
}
use molar_tracker.Base.Text.{Text}
use molar_tracker.Settings.Param
use molar_tracker.Settings.Param.{
  ParamCore, ParamException, Notice, is_dirty, get, commit, set_default, reset_to_default,
}
use molar_tracker.Settings.NumericParam.{
  NumericParam, ParamError, Numbers, set_min_value, set_number,
}

-- `NumericVecParam<T, N>`: N is the number of parameters, which the constructor makes.
pub record VecParam {ℓ} (T : Type ℓ) : Type ℓ where
  pub key : Text
  pub title : Text
  pub description : Text
  pub params : List (NumericParam T)

abbrev pub with_default {ℓ} : {T : Type ℓ} → T → NumericParam T → NumericParam T
with_default d p = record p { core = set_default (some d) p.core }

-- The loops of `setDefaults` and `setMinValues`.
unfoldable pub set_each {ℓ} :
    {T : Type ℓ}
    → (T → NumericParam T → NumericParam T)
    → List T
    → List (NumericParam T)
    → List (NumericParam T)
set_each f [] ps = ps
set_each f (v ∷ vs) [] = []
set_each f (v ∷ vs) (p ∷ ps) = f v p ∷ set_each f vs ps

unfoldable pub set_defaults {ℓ} :
    {T : Type ℓ} → List T → VecParam T → Result ParamException (VecParam T)
set_defaults vs p =
    if not (length vs == length p.params)
    then err ParamException.wrong_size
    else ok (record p { params = set_each with_default vs p.params })

unfoldable pub set_min_values {ℓ} :
    {T : Type ℓ} → List T → VecParam T → Result ParamException (VecParam T)
set_min_values vs p =
    if not (length vs == length p.params)
    then err ParamException.wrong_size
    else ok (record p { params = set_each set_min_value vs p.params })

-- `NumericParam::commit` and `NumericParam::resetToDefault`, of the core.
abbrev pub commit_number {ℓ} : {T : Type ℓ} → NumericParam T → NumericParam T
commit_number q = record q { core = commit q.core }

abbrev pub reset_number {ℓ} : {T : Type ℓ} → (T → T → Bool) → NumericParam T → NumericParam T
reset_number equals q = record q { core = (reset_to_default equals q.core).0 }

-- `getParam`
unfoldable pub get_param {ℓ} :
    {T : Type ℓ} → ℕ → VecParam T → Result ParamException (NumericParam T)
get_param i p = elim (get_elem? p.params i) [
  | none ↦ err ParamException.index_out_of_range
  | some q ↦ ok q
]

-- `get`
unfoldable pub get_at {ℓ} : {T : Type ℓ} → ℕ → VecParam T → Result ParamException T
get_at i p = elim (get_elem? p.params i) [
  | none ↦ err ParamException.index_out_of_range
  | some q ↦ get q.core
]

unfoldable pub commit_all {ℓ} : {T : Type ℓ} → VecParam T → VecParam T
commit_all p = record p { params = map commit_number p.params }

module _ {ℓ} {T : Type ℓ} (N : Numbers T) where
  -- `set`: the error or nothing, the parameter, and what the subscribers of the one number are told.
  unfoldable pub set_at : ℕ → T → VecParam T → Option ParamError × VecParam T × List (Notice T)
  set_at i v p = elim (get_elem? p.params i) [
    | none ↦ (some ParamError.invalid_param_value, p, [])
    | some q ↦ let r = set_number N v q in (r.0, record p { params = set p.params i r.1 }, r.2)
  ]

  unfoldable pub reset_all : VecParam T → VecParam T
  reset_all p = record p { params = map (reset_number N.equals) p.params }

  unfoldable pub is_dirty_vec : VecParam T → Bool
  is_dirty_vec p = any (λ q. is_dirty N.equals q.core) p.params
