-- ===== src/Base/Text.antt =====
-- Text as code points.
use Prim.Native.Nat.{ℕ, suc, ◌+◌}
use mathlib.Core.Bool.{Bool, true, false, ◌&&◌}
use mathlib.Core.List.{List, [], ◌∷◌, ◌++◌}
use mathlib.Core.Path.{◌≡◌, refl}
use native.Mathlib.Omega.{arith}
use Prim.Native.Char.{code}
use Prim.Native.String.{String}
use molar_tracker.Base.Tests.{◌==◌, if◌then◌else◌}

abbrev pub Text : Type 0
Text = List ℕ

-- The code points of a literal.
abbrev pub codes : String → Text
codes String.[] = []
codes (String.◌∷◌ c s) = code c ∷ codes s

-- How often a character stands in a text.
abbrev pub count_of : ℕ → Text → ℕ
count_of c [] = 0
count_of c (d ∷ s) = let rest = count_of c s in if d == c then suc rest else rest

pub count_of-append : (c : ℕ) (s t : Text) → count_of c (s ++ t) ≡ count_of c s + count_of c t
count_of-append c [] t = omega arith
count_of-append c (d ∷ s) t = ground (arith, count_of-append c s t)

pub count_of-three :
    (c : ℕ) (s t u : Text) → count_of c (s ++ t ++ u) ≡ count_of c s + count_of c t + count_of c u
count_of-three c s t u = omega (arith, count_of-append c (s ++ t) u, count_of-append c s t)

pub count_of-five :
    (c : ℕ) (s t u v w : Text)
    → count_of c (s ++ t ++ u ++ v ++ w)
      ≡ count_of c s + count_of c t + count_of c u + count_of c v + count_of c w
count_of-five c s t u v w =
    omega (arith, count_of-three c (s ++ t ++ u) v w, count_of-three c s t u)

-- `==` of two `std::string`s.
abbrev pub text_eq : Text → Text → Bool
text_eq [] [] = true
text_eq [] (y ∷ ys) = false
text_eq (x ∷ xs) [] = false
text_eq (x ∷ xs) (y ∷ ys) = x == y && text_eq xs ys

pub text_eq_trans : (a b c : Text) → text_eq a b ≡ true → text_eq a c ≡ text_eq b c
text_eq_trans [] [] c h = refl
text_eq_trans [] (y ∷ b) c h = cc
text_eq_trans (x ∷ a) [] c h = cc
text_eq_trans (x ∷ a) (y ∷ b) [] h = refl
text_eq_trans (x ∷ a) (y ∷ b) (z ∷ c) h = ground (arith, text_eq_trans a b c)

pub text_eq_sym : (a b : Text) → text_eq a b ≡ text_eq b a
text_eq_sym [] [] = refl
text_eq_sym [] (y ∷ b) = refl
text_eq_sym (x ∷ a) [] = refl
text_eq_sym (x ∷ a) (y ∷ b) = ground (arith, text_eq_sym a b)

-- `mstd::join` of a library that is not part of the repository: the texts with a delimiter between.
pub record Joining : Type 0 where
  pub join : List Text → Text → Text
  pub join-none : (d : Text) → join [] d ≡ []
  pub join-one : (t d : Text) → join (t ∷ []) d ≡ t
  pub join-more :
      (t u : Text) (ts : List Text) (d : Text) → join (t ∷ u ∷ ts) d ≡ t ++ d ++ join (u ∷ ts) d

-- How often a character stands in texts.
abbrev pub count_in_all : ℕ → List Text → ℕ
count_in_all c [] = 0
count_in_all c (t ∷ ts) = count_of c t + count_in_all c ts

module _ (j : Joining) where
  -- A delimiter that does not have the character adds none.
  pub count_of-join :
      (c : ℕ) (ts : List Text) (d : Text)
      → count_of c d ≡ 0
      → count_of c (j.join ts d) ≡ count_in_all c ts
  count_of-join c [] d h = rw (j.join-none d) refl
  count_of-join c (t ∷ []) d h = rw (j.join-one t d) (omega arith)
  count_of-join c (t ∷ u ∷ ts) d h =
      rw
        (
          j.join-more t u ts d,
          count_of-append c (t ++ d) (j.join (u ∷ ts) d),
          count_of-append c t d,
        )
        (omega (arith, h, count_of-join c (u ∷ ts) d h))
