-- ===== src/Settings/Param/Laws.antt =====
-- Setting, reading and saving a parameter (settings/include/settings/params/param_core.tpp).
use molar_tracker.Base.{
  ◌≡◌, ◌≢◌, refl, none, some, [], Bool, true, false, not, err, ok, arith, Bool-cases, Option-cases,
  inl, inr,
}
use molar_tracker.Settings.Param.{
  ParamCore, ParamException, get_optional, get, commit, is_dirty, is_current, set, unset,
  reset_to_default,
}

-- What `_equals` does for all types but those of floating point.
pub record IsEquality {T : Type 0} (equals : T → T → Bool) : Type 0 where
  pub equal : (a b : T) → equals a b ≡ true → a ≡ b
  pub reflexive : (a : T) → equals a a ≡ true

-- `get` reads what `getOptional` holds.
pub get-get_optional :
    {T : Type 0} (p : ParamCore T)
    → get p ≡ elim (get_optional p) [ none ↦ err ParamException.no_value | some c ↦ ok c ]
unfolding get get_optional
get-get_optional p = ground arith

module _ {T : Type 0} (equals : T → T → Bool) where
  get_optional-current :
      (p : ParamCore T) (v : T) → is_current equals p v ≡ true → get_optional p ≢ none
  unfolding is_current get_optional
  get_optional-current p v e n = ground arith

  is_current-some :
      (p : ParamCore T) (v c : T) → get_optional p ≡ some c → is_current equals p v ≡ equals c v
  unfolding is_current get_optional
  is_current-some p v c q = ground arith

  -- Saving leaves no difference to the saved value.
  pub is_dirty-commit :
      ((a : T) → equals a a ≡ true) → (p : ParamCore T) → is_dirty equals (commit p) ≡ false
  unfolding is_dirty commit
  is_dirty-commit r p = elim (Option-cases p.value) [
    | inl n ↦ ground (arith, n)
    | inr (v, q) ↦ ground (arith, q, r v)
  ]

  -- If a value equals itself, then after setting a value the parameter reads as a value that equals
  -- it.
  pub get-set :
      ((a : T) → equals a a ≡ true)
      → (v : T) (p : ParamCore T) → (w : T) × (get (set equals v p).0 ≡ ok w) × (equals w v ≡ true)
  unfolding is_current set get_optional
  get-set r v p = elim (Bool-cases (is_current equals p v)) [
    | inl e ↦ elim (Option-cases (get_optional p)) [
      | inl n ↦ absurd (get_optional-current p v e n)
      | inr (c, q) ↦
          (c, rw (e, get-get_optional p, q) refl, ground (arith, e, is_current-some p v c q))
    ]
    | inr e ↦ (v, rw (e, get-get_optional (record p { value = some v })) refl, r v)
  ]

  -- Setting a value a second time changes nothing and tells nobody.
  pub set-set :
      ((a : T) → equals a a ≡ true)
      → (v : T) (p : ParamCore T) → set equals v (set equals v p).0 ≡ ((set equals v p).0, [])
  unfolding is_current set get_optional
  set-set r v p = ground (arith, r v)

  -- If the values are compared by an equality, then setting a value on a parameter that is as it was
  -- saved makes it differ from that exactly if it read differently before.
  pub is_dirty-set :
      IsEquality equals
      → (v : T) (p : ParamCore T) → is_dirty equals p ≡ false
      → is_dirty equals (set equals v p).0 ≡ not (is_current equals p v)
  unfolding is_current is_dirty set get_optional
  is_dirty-set e v p c = elim (Option-cases p.value) [
    | inl n ↦ ground (arith, n)
    | inr (w, q) ↦ elim (Option-cases p.base_line) [
      | inl n ↦ ground (arith, q, n)
      | inr (b, k) ↦
          ground (arith, q, k, e.equal w b, e.equal w v, e.equal b v, e.equal v b, e.reflexive v)
    ]
  ]

  -- Going back to the default makes a parameter that has one read as its default.
  pub get-reset_to_default :
      (p : ParamCore T) (d : T)
      → p.default_value ≡ some d
      → get (reset_to_default equals p).0 ≡ ok d
  unfolding reset_to_default unset get
  get-reset_to_default p d h = rw h (ground (arith, h))
