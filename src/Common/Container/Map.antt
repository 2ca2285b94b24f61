-- ===== src/Common/Container/Map.antt =====
-- `Map` and `IdMap` (common/include/common/container/map.tpp and id_map.tpp) with identifiers for
-- keys: a list of pairs in the order in which the hash table is gone through.
use molar_tracker.Base.{
  ◌≡◌, refl, Option, none, some, List, [], ◌∷◌, ◌++◌, Bool, true, false, not, if◌then◌else◌,
  filter_if, arith,
}
use molar_tracker.Base.Int.{ℤ, eqb_ℤ, eqb_ℤ→eq}

abbrev pub IdMap {ℓ} : Type ℓ → Type ℓ
IdMap V = List (ℤ × V)

module _ {ℓ} {V : Type ℓ} where
  -- `at`, with `none` for the exception of a missing key.
  unfoldable pub at : IdMap V → ℤ → Option V
  at [] k = none
  at ((j, v) ∷ m) k = if eqb_ℤ j k then some v else at m k

  unfoldable pub has_key : IdMap V → ℤ → Bool
  unfolding at
  has_key m k = elim (at m k) [ none ↦ false | some _ ↦ true ]

  -- `emplace` keeps the value of a key that is there.
  unfoldable pub add_unchecked : IdMap V → ℤ → V → IdMap V
  unfolding has_key
  add_unchecked m k v = if has_key m k then m else m ++ (k, v) ∷ []

  -- `add` also returns whether the key was new.
  unfoldable pub add : IdMap V → ℤ → V → (Bool × IdMap V)
  unfolding has_key add_unchecked
  add m k v = (not (has_key m k), add_unchecked m k v)

  -- A change of the value through the reference that `at` returns.
  unfoldable pub update : (V → V) → IdMap V → ℤ → IdMap V
  update f [] k = []
  update f ((j, v) ∷ m) k = if eqb_ℤ j k then (j, f v) ∷ m else (j, v) ∷ update f m k

  unfoldable pub remove_key : IdMap V → ℤ → IdMap V
  remove_key m k = filter_if (λ e. not (eqb_ℤ e.0 k)) m

  unfoldable pub get_keys : IdMap V → List ℤ
  get_keys [] = []
  get_keys ((k, v) ∷ m) = k ∷ get_keys m

  unfoldable pub get_values : IdMap V → List V
  get_values [] = []
  get_values ((k, v) ∷ m) = v ∷ get_values m

  at-append :
      (m : IdMap V) (k j : ℤ) (v : V)
      → at (m ++ (k, v) ∷ []) j
        ≡ elim (at m j) [ none ↦ if eqb_ℤ k j then some v else none | some w ↦ some w ]
  unfolding at
  at-append [] k j v = refl
  at-append ((i, w) ∷ m) k j v = ground (arith, at-append m k j v)

  pub at-add_unchecked :
      (m : IdMap V) (k j : ℤ) (v : V)
      → at (add_unchecked m k v) j
        ≡ elim (at m j) [ none ↦ if eqb_ℤ k j then some v else none | some w ↦ some w ]
  unfolding add_unchecked has_key
  at-add_unchecked m k j v = ground (arith, at-append m k j v, eqb_ℤ→eq k j)

module _ {V : Type 0} where
  pub at-update :
      (f : V → V) (m : IdMap V) (k j : ℤ)
      → at (update f m k) j
        ≡ elim (at m j) [ none ↦ none | some v ↦ if eqb_ℤ k j then some (f v) else some v ]
  unfolding at update
  at-update f [] k j = refl
  at-update f ((i, v) ∷ m) k j = ground (arith, at-update f m k j, eqb_ℤ→eq i k, eqb_ℤ→eq i j)
