-- ===== src/Settings/MapParam/Keys.antt =====
-- What is under the keys of a map parameter (settings/include/settings/params/map_param.tpp).
use molar_tracker.Base.{
  ◌≡◌, refl, none, some, [], ◌∷◌, Bool, true, false, if◌then◌else◌, any, map, arith, Option-cases,
  inl, inr,
}
use molar_tracker.Base.Text.{Text, text_eq, text_eq_trans, text_eq_sym}
use molar_tracker.Settings.Param.{ParamCore, is_dirty, set}
use molar_tracker.Settings.Param.Laws.{is_dirty-commit}
use molar_tracker.Settings.NumericParam.{ParamError}
use molar_tracker.Settings.MapParam.{
  returned, ParamMap, MapParam, param_at, write_param, validate, set_under, add_param,
  add_param_unchecked, commit_pair, commit_map, is_dirty_map,
}

module _ {V : Type 0} where
  param_at-write_param :
      (m : ParamMap V) (k j : Text) (p q : ParamCore V)
      → param_at m k ≡ some q
      → param_at (write_param m k p) j ≡ (if text_eq k j then some p else param_at m j)
  unfolding param_at write_param
  param_at-write_param [] k j p q h = ground (arith, h)
  param_at-write_param ((i, r) ∷ m) k j p q h = ground (
    arith,
    param_at-write_param m k j p q,
    text_eq_trans i k j,
    text_eq_trans j i k,
    text_eq_sym j i,
    text_eq_sym j k,
  )

  -- Adding a parameter whose key is there reports success, if the validators accept it, and changes
  -- nothing.
  pub add_param_again :
      (p q : ParamCore V) (m : MapParam V)
      → param_at m.params p.key ≡ some q
      → validate m.validators p m.params ≡ none
      → add_param p m ≡ (none, m)
  unfolding add_param add_param_unchecked
  add_param_again p q m h k = rw (add_param, k, add_param_unchecked, h) refl

module _ {V : Type 0} (equals : V → V → Bool) where
  -- Saving a map leaves none of its parameters changed, if values equal themselves.
  pub is_dirty_map-commit_map :
      ((a : V) → equals a a ≡ true) → (m : MapParam V) → is_dirty_map equals (commit_map m) ≡ false
  unfolding is_dirty_map commit_map
  is_dirty_map-commit_map r m = go m.params
    where
      go : (ps : ParamMap V) → any (λ e. is_dirty equals e.1) (map commit_pair ps) ≡ false
      go [] = refl
      go ((k, p) ∷ ps) = ground (arith, is_dirty-commit equals r p, go ps)

  -- Setting a value under a key that is not there reports so; under one that is there it reports the
  -- first error of the validators, which see the parameter with the new value beside all parameters as
  -- they are, and changes nothing, or it reports no error, and then the parameter under that key is the
  -- one with the new value, and those under other keys are as before.
  pub param_at-set_under :
      (k j : Text) (v : V) (m : MapParam V)
      → ((set_under equals k v m).0 ≡ elim (param_at m.params k) [
        | none ↦ some (returned ParamError.param_not_found)
        | some p ↦ validate m.validators (set equals v p).0 m.params
      ])
        × (param_at (set_under equals k v m).1.params j ≡ elim (param_at m.params k) [
          | none ↦ param_at m.params j
          | some p ↦ elim (validate m.validators (set equals v p).0 m.params) [
            | some e ↦ param_at m.params j
            | none ↦ if text_eq k j then some (set equals v p).0 else param_at m.params j
          ]
        ])
  unfolding set_under
  param_at-set_under k j v m = elim (Option-cases (param_at m.params k)) [
    | inl n ↦ rw (set_under, n) (refl, refl)
    | inr (p, e) ↦ elim (Option-cases (validate m.validators (set equals v p).0 m.params)) [
      | inl n ↦
          rw (set_under, e, n) (refl, param_at-write_param m.params k j (set equals v p).0 p e)
      | inr (x, n) ↦ rw (set_under, e, n) (refl, refl)
    ]
  ]
