-- ===== src/Common/Container/Set.antt =====
-- `Set` (common/include/common/container/set.tpp). A set is a list of its elements in the order in
-- which the hash table is gone through, which the source leaves open.
use molar_tracker.Base.{
  ◌≡◌, refl, List, [], ◌∷◌, Bool, true, false, not, ◌&&◌, ◌||◌, if◌then◌else◌, any, filter_if,
  arith,
}
use molar_tracker.Base.Int.{ℤ, eqb_ℤ, eqb_ℤ→eq}

abbrev pub IdSet : Type 0
IdSet = List ℤ

unfoldable pub contains : IdSet → ℤ → Bool
contains [] i = false
contains (x ∷ xs) i = eqb_ℤ x i || contains xs i

pub insert : IdSet → ℤ → IdSet
insert [] i = i ∷ []
insert (x ∷ xs) i = if eqb_ℤ x i then x ∷ xs else x ∷ insert xs i

-- The elements of the second set are inserted one by one.
pub combine : IdSet → IdSet → IdSet
combine xs [] = xs
combine xs (y ∷ ys) = combine (insert xs y) ys

pub intersection : IdSet → IdSet → IdSet
intersection xs ys = filter_if (contains ys) xs

pub difference : IdSet → IdSet → IdSet
difference xs ys = filter_if (λ x. not (contains ys x)) xs

abbrev pub is_empty_set : IdSet → Bool
is_empty_set [] = true
is_empty_set (x ∷ xs) = false

-- `operator==`
pub set_eq : IdSet → IdSet → Bool
set_eq xs ys = is_empty_set (difference xs ys) && is_empty_set (difference ys xs)

pub intersects : IdSet → IdSet → Bool
intersects xs ys = not (is_empty_set (intersection xs ys))

pub remove : IdSet → ℤ → IdSet
remove xs i = filter_if (λ x. not (eqb_ℤ x i)) xs

pub contains-insert :
    (xs : IdSet) (i j : ℤ) → contains (insert xs i) j ≡ (eqb_ℤ i j || contains xs j)
unfolding contains insert
contains-insert [] i j = refl
contains-insert (x ∷ xs) i j = ground (arith, contains-insert xs i j, eqb_ℤ→eq x i)

pub contains-combine :
    (xs ys : IdSet) (j : ℤ) → contains (combine xs ys) j ≡ (contains ys j || contains xs j)
unfolding contains combine
contains-combine xs [] j = refl
contains-combine xs (y ∷ ys) j =
    ground (arith, contains-combine (insert xs y) ys j, contains-insert xs y j)

pub contains-filter_if :
    (p : ℤ → Bool) (xs : IdSet) (j : ℤ) → contains (filter_if p xs) j ≡ (p j && contains xs j)
unfolding contains
contains-filter_if p [] j = ground arith
contains-filter_if p (x ∷ xs) j = ground (arith, contains-filter_if p xs j, eqb_ℤ→eq x j)

intersects-any : (xs ys : IdSet) → intersects xs ys ≡ any (contains ys) xs
unfolding intersects intersection
intersects-any [] ys = refl
intersects-any (x ∷ xs) ys = ground (arith, intersects-any xs ys)
