-- ===== src/Settings/MapParam/Shortcuts.antt =====
-- Changing a shortcut (settings/src/settings/shortcut_settings.cpp, and `setAt` of
-- settings/include/settings/params/map_param.tpp).
use molar_tracker.Base.{
  ◌≡◌, refl, ap, ◌∙◌, sym, subst, some, List, [], ◌∷◌, Bool, true, false, if◌then◌else◌, all, arith,
  Result, ok, err, Option, inl, inr, Bool-cases,
}
use molar_tracker.Base.Text.{Text, text_eq}
use molar_tracker.Common.Exception.{ok_eq}
use molar_tracker.Settings.Param.{ParamCore, ParamException, set, is_current, get}
use molar_tracker.Settings.NumericParam.{ParamError}
use molar_tracker.Settings.MapParam.{
  Stop, returned, ParamMap, MapParam, param_at, validate, set_under, clash, compare_old,
  shortcut_validator,
}

-- A parameter can be read: it has a value or a default.
abbrev pub is_readable : {V : Type 0} → Result ParamException V → Bool
is_readable (ok v) = true
is_readable (err e) = false

readable_cases :
    {V : Type 0} (r : Result ParamException V) → is_readable r ≡ true → (v : V) × (r ≡ ok v)
readable_cases (ok v) h = (v, refl)
readable_cases (err e) h = absurd (ground (arith, h))

module _ {S : Type 0} (same : S → S → Bool) (default : S) (equals : List S → List S → Bool) where
  get-set_new :
      (p : ParamCore (List S)) (v : List S)
      → is_current equals p v ≡ false
      → get (set equals v p).0 ≡ ok v
  unfolding set get
  get-set_new p v h = rw h refl

  -- A stored set that clashes is a duplicate, and one that does not is passed over.
  compare_clash :
      (old v : List S) (rest : Option Stop)
      → clash same default old v ≡ true
      → compare_old same default (ok old) (ok v) rest ≡ some (returned ParamError.duplicate_value)
  compare_clash [] v rest c = absurd (ground (arith, c))
  compare_clash (o ∷ os) v rest c = rw c refl

  compare_rest :
      (old v : List S) (rest : Option Stop)
      → rest ≡ some (returned ParamError.duplicate_value)
      → compare_old same default (ok old) (ok v) rest ≡ some (returned ParamError.duplicate_value)
  compare_rest [] v rest h = h
  compare_rest (o ∷ os) v rest h = elim (Bool-cases (clash same default (o ∷ os) v)) [
    | inl c ↦ rw c refl
    | inr c ↦ rw c h
  ]

  same_param :
      (b : Bool) (q p : ParamCore (List S)) (o : Option (ParamCore (List S)))
      → b ≡ true
      → (if b then some q else o) ≡ some p
      → q ≡ p
  same_param true q p o t h = cc
  same_param false q p o t h = absurd (cc)

  other_param :
      (b : Bool) (q p : ParamCore (List S)) (o : Option (ParamCore (List S)))
      → b ≡ false
      → (if b then some q else o) ≡ some p
      → o ≡ some p
  other_param true q p o t h = absurd (cc)
  other_param false q p o t h = h

  finds_duplicate :
      (m : ParamMap (List S)) (k : Text) (p r : ParamCore (List S)) (old v : List S)
      → all (λ e. is_readable (get e.1)) m ≡ true
      → param_at m k ≡ some p
      → get p ≡ ok old
      → get r ≡ ok v
      → clash same default old v ≡ true
      → shortcut_validator same default r m ≡ some (returned ParamError.duplicate_value)
  unfolding param_at shortcut_validator
  finds_duplicate [] k p r old v a h g e c = absurd (cc)
  finds_duplicate ((j, q) ∷ m) k p r old v a h g e c =
      let x = readable_cases (get q) (ground (arith, a)) in
      rw (x.1, e)
        (elim (Bool-cases (text_eq j k)) [
          | inl t ↦
              let here : q ≡ p = same_param (text_eq j k) q p (param_at m k) t h in
              compare_clash x.0 v (shortcut_validator same default r m) (
                subst (λ y. clash same default y v ≡ true) (ok_eq (sym g ∙ ap get (sym here) ∙ x.1))
                  c)
          | inr t ↦ compare_rest x.0 v (shortcut_validator same default r m) (
              finds_duplicate m k p r old v (ground (arith, a))
                (other_param (text_eq j k) q p (param_at m k) t h) g e c)
        ])

  -- If the only validator of a map is that of the shortcuts and every parameter of the map has a value or
  -- a default, then changing the shortcuts under a key to others that keep one of them, and that one is
  -- not the default shortcut, reports a duplicate and changes nothing: the new ones are compared with
  -- those under the same key as well.
  pub set_under_duplicate :
      (k : Text) (v old : List S) (m : MapParam (List S)) (p : ParamCore (List S))
      → m.validators ≡ shortcut_validator same default ∷ []
      → all (λ e. is_readable (get e.1)) m.params ≡ true
      → param_at m.params k ≡ some p
      → get p ≡ ok old
      → is_current equals p v ≡ false
      → clash same default old v ≡ true
      → set_under equals k v m ≡ (some (returned ParamError.duplicate_value), m, [])
  unfolding set_under validate
  set_under_duplicate k v old m p l a h g c d =
      let r = (set equals v p).0 in
      let verdict = finds_duplicate m.params k p r old v a h g (get-set_new p v c) d in
      let refused : validate m.validators r m.params ≡ some (returned ParamError.duplicate_value) =
        ap (λ fs. validate fs r m.params) l ∙ rw (validate, verdict) refl in
      rw (set_under, h, refused) refl
