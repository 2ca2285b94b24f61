-- ===== src/Filter/ExprNode.antt =====
-- Expression nodes and their constructors (filter/include/filter/expr_node.hpp and expr_node.tpp).
use molar_tracker.Base.{ℕ, ◌+◌, ◌≡◌, refl, Bool, true, false, ◌↔◌, arith, ◌<◌, ◌⊎◌, inl, inr}

-- `Node`, a variant of `EmptyNode`, the leaf, `AndNode`, `OrNode` and `NotNode`.
pub data Node (L : Type 0) : Type 0 where
  empty_node : Node L
  leaf : L → Node L
  and_node : Node L → Node L → Node L
  or_node : Node L → Node L → Node L
  not_node : Node L → Node L

module _ {L : Type 0} where
  abbrev pub is_empty_node : Node L → Bool
  is_empty_node empty_node = true
  is_empty_node _ = false

  unfoldable pub make_and : Node L → Node L → Node L
  make_and empty_node right = right
  make_and left empty_node = left
  make_and left right = and_node left right

  unfoldable pub make_or : Node L → Node L → Node L
  make_or empty_node right = right
  make_or left empty_node = left
  make_or left right = or_node left right

  unfoldable pub make_not : Node L → Node L
  make_not empty_node = empty_node
  make_not operand = not_node operand

  -- `SizeVisitor`: the number of leaves.
  pub get_size : Node L → ℕ
  get_size empty_node = 0
  get_size (leaf l) = 1
  get_size (and_node a b) = get_size a + get_size b
  get_size (or_node a b) = get_size a + get_size b
  get_size (not_node a) = get_size a

  -- What callers can build: nothing, a leaf, and what the constructors make of these.
  pub data Built : Node L → Type 0 where
    nothing : Built empty_node
    one : (l : L) → Built (leaf l)
    both : {a b : Node L} → Built a → Built b → Built (make_and a b)
    either : {a b : Node L} → Built a → Built b → Built (make_or a b)
    negated : {a : Node L} → Built a → Built (make_not a)

  -- No empty node stands below another node.
  abbrev pub HasNoHole : Node L → Type 0
  HasNoHole empty_node = ⊥
  HasNoHole (leaf l) = Unit
  HasNoHole (and_node a b) = HasNoHole a × HasNoHole b
  HasNoHole (or_node a b) = HasNoHole a × HasNoHole b
  HasNoHole (not_node a) = HasNoHole a

  abbrev pub IsTidy : Node L → Type 0
  IsTidy empty_node = Unit
  IsTidy n = HasNoHole n

  IsTidy-make_and : (a b : Node L) → IsTidy a → IsTidy b → IsTidy (make_and a b)
  unfolding make_and
  IsTidy-make_and a b h k = ground arith

  IsTidy-make_or : (a b : Node L) → IsTidy a → IsTidy b → IsTidy (make_or a b)
  unfolding make_or
  IsTidy-make_or a b h k = ground arith

  IsTidy-make_not : (a : Node L) → IsTidy a → IsTidy (make_not a)
  unfolding make_not
  IsTidy-make_not a h = ground arith

  Built-IsTidy : (n : Node L) → Built n → IsTidy n
  Built-IsTidy _ nothing = tt
  Built-IsTidy _ (one l) = tt
  Built-IsTidy _ (both {a} {b} h k) = IsTidy-make_and a b (Built-IsTidy a h) (Built-IsTidy b k)
  Built-IsTidy _ (either {a} {b} h k) = IsTidy-make_or a b (Built-IsTidy a h) (Built-IsTidy b k)
  Built-IsTidy _ (negated {a} h) = IsTidy-make_not a (Built-IsTidy a h)

  get_size_positive : (n : Node L) → HasNoHole n → 0 < get_size n
  unfolding get_size
  get_size_positive empty_node h = absurd h
  get_size_positive (leaf l) h = omega arith
  get_size_positive (and_node a b) (h, k) = omega (arith, get_size_positive a h)
  get_size_positive (or_node a b) (h, k) = omega (arith, get_size_positive a h)
  get_size_positive (not_node a) h = get_size_positive a h

  empty_or_positive : (n : Node L) → IsTidy n → (n ≡ empty_node) ⊎ (0 < get_size n)
  unfolding get_size
  empty_or_positive empty_node h = inl refl
  empty_or_positive (leaf l) h = inr (omega arith)
  empty_or_positive (and_node a b) h = inr (get_size_positive (and_node a b) h)
  empty_or_positive (or_node a b) h = inr (get_size_positive (or_node a b) h)
  empty_or_positive (not_node a) h = inr (get_size_positive (not_node a) h)

  -- What is built from nothing and leaves by the constructors has no empty node below another
  -- node, and its size is zero exactly if it is the empty node.
  pub Built-get_size : (n : Node L) → Built n → IsTidy n × ((get_size n ≡ 0) ↔ (n ≡ empty_node))
  unfolding get_size
  Built-get_size n h = (
    Built-IsTidy n h,
    (
      λ e. elim (empty_or_positive n (Built-IsTidy n h)) [
        | inl q ↦ q
        | inr p ↦ absurd (omega (arith, e, p))
      ],
      λ q. rw q refl,
    ),
  )
