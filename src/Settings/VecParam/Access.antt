-- ===== src/Settings/VecParam/Access.antt =====
-- Reading and writing the numbers of a vector parameter
-- (settings/include/settings/params/numeric_vec_param.tpp).
use molar_tracker.Base.{
  ℕ, zero, suc, ◌≡◌, refl, some, List, [], ◌∷◌, ◌==◌, if◌then◌else◌, err, ok, set, get_elem?,
  Option-cases, inl, inr, arith,
}
use molar_tracker.Settings.NumericParam.{Numbers, set_number}
use molar_tracker.Settings.VecParam.{VecParam, get_param, set_at}

get_elem?-set :
    {A : Type 0} (xs : List A) (i j : ℕ) (x y : A)
    → get_elem? xs i ≡ some x
    → get_elem? (set xs i y) j ≡ (if i == j then some y else get_elem? xs j)
get_elem?-set [] i j x y h = ground (arith, h)
get_elem?-set (z ∷ xs) zero zero x y h = refl
get_elem?-set (z ∷ xs) zero (suc j) x y h = ground arith
get_elem?-set (z ∷ xs) (suc i) zero x y h = ground arith
get_elem?-set (z ∷ xs) (suc i) (suc j) x y h = ground (arith, get_elem?-set xs i j x y)

module _ {T : Type 0} (N : Numbers T) where
  -- Setting the number at an index that has one does what setting that number alone does, with its
  -- error, and leaves the others; at an index that has none it reports an invalid value and changes
  -- nothing.
  pub get_param-set_at :
      (v : T) (p : VecParam T) (i j : ℕ)
      → get_param j (set_at N i v p).1 ≡ elim (get_param i p) [
        | err e ↦ get_param j p
        | ok q ↦ if i == j then ok (set_number N v q).1 else get_param j p
      ]
  unfolding get_param set_at
  get_param-set_at v p i j = elim (Option-cases (get_elem? p.params i)) [
    | inl n ↦ rw (get_param, set_at, n) refl
    | inr (q, e) ↦
        rw (get_param, set_at, e, get_elem?-set p.params i j q (set_number N v q).1 e)
          (ground arith)
  ]
