-- ===== src/Examples/Settings.antt =====
-- The settings and versions at concrete inputs.
use molar_tracker.Base.{
  ℕ, ◌≡◌, refl, none, some, List, [], ◌∷◌, Bool, true, false, not, ◌&&◌, ◌==◌, leb, ok, ◌⊎◌, ◌↔◌,
  arith,
}
use Prim.Native.Nat.{Ordering}
use molar_tracker.Base.Text.{Text}
use molar_tracker.Common.Version.{sem_ver, version_text, of_text, compare_versions, equal_versions}
use molar_tracker.Common.Version.RoundTrip.{of_text-version_text}
use molar_tracker.Common.Version.Order.{flipped, compare_versions-order}
use molar_tracker.Settings.Param.{ParamCore, param_core, get, set, is_dirty, is_current}
use molar_tracker.Settings.Param.Laws.{IsEquality, is_dirty-set}
use molar_tracker.Settings.NumericParam.{
  NumericParam, ParamError, Numbers, is_within_range, set_number,
}
use molar_tracker.Settings.NumericParam.Limits.{InLimits, set_number-InLimits}
use molar_tracker.Settings.MapParam.{MapParam, returned, param_at, set_under, shortcut_validator}
use molar_tracker.Settings.MapParam.Shortcuts.{set_under_duplicate}

of_text-version_text_example : of_text (version_text (sem_ver 1 20 305)) ≡ sem_ver 1 20 305
of_text-version_text_example =
    of_text-version_text 1 20 305 (omega arith) (omega arith) (omega arith)

compare_versions-order_example :
    (compare_versions (sem_ver 1 3 0) (sem_ver 1 2 9)
      ≡ flipped (compare_versions (sem_ver 1 2 9) (sem_ver 1 3 0)))
    × ((compare_versions (sem_ver 1 2 9) (sem_ver 1 3 0) ≡ Ordering.eq)
        ↔ (equal_versions (sem_ver 1 2 9) (sem_ver 1 3 0) ≡ true))
    × (compare_versions (sem_ver 1 2 9) (sem_ver 1 3 0) ≡ Ordering.lt
        → compare_versions (sem_ver 1 3 0) (sem_ver 2 0 0) ≡ Ordering.lt
        → compare_versions (sem_ver 1 2 9) (sem_ver 2 0 0) ≡ Ordering.lt)
    × (equal_versions (sem_ver 1 2 9) (sem_ver 1 3 0) ≡ true
        → compare_versions (sem_ver 1 2 9) (sem_ver 2 0 0)
          ≡ compare_versions (sem_ver 1 3 0) (sem_ver 2 0 0))
compare_versions-order_example =
    compare_versions-order (sem_ver 1 2 9) (sem_ver 1 3 0) (sem_ver 2 0 0)

abbrev name_of : ℕ → Text
name_of n = n ∷ []

numbers_equal : ℕ → ℕ → Bool
numbers_equal a b = a == b

numbers_equal-IsEquality : IsEquality numbers_equal
unfolding numbers_equal
numbers_equal-IsEquality = record { equal = λ a b h. ground arith; reflexive = λ a. ground arith }

-- A parameter with default 7, saved with the value 3.
abbrev saved_three : ParamCore ℕ
saved_three = record (param_core (name_of 1) (name_of 2) (name_of 3)) {
  value = some 3;
  default_value = some 7;
  base_line = some 3;
}

is_dirty-set_example :
    is_dirty numbers_equal (set numbers_equal 7 saved_three).0
    ≡ not (is_current numbers_equal saved_three 7)
unfolding is_dirty numbers_equal
is_dirty-set_example = is_dirty-set numbers_equal numbers_equal-IsEquality 7 saved_three refl

abbrev naturals : Numbers ℕ
naturals = record { equals = numbers_equal; at_most = leb; round = λ p n. n }

abbrev up_to_ten : NumericParam ℕ
up_to_ten = record { core = saved_three; min_value = none; max_value = some 10; precision = none }

up_to_ten-InLimits : InLimits naturals up_to_ten
up_to_ten-InLimits v h = ground arith

set_number-InLimits_example :
    InLimits naturals (set_number naturals 12 up_to_ten).1
    × ((set_number naturals 12 up_to_ten).1
        ≡ record up_to_ten { core = (set_number naturals 12 up_to_ten).1.core })
    × (((set_number naturals 12 up_to_ten).0 ≡ none)
          × (is_within_range naturals up_to_ten 12 ≡ true)
          × ((w : ℕ) × (get (set_number naturals 12 up_to_ten).1.core ≡ ok w)
              × (numbers_equal w 12 ≡ true))
        ⊎ ((set_number naturals 12 up_to_ten ≡ (some ParamError.invalid_param_value, up_to_ten, []))
            × (is_within_range naturals up_to_ten 12 ≡ false)))
set_number-InLimits_example =
    set_number-InLimits naturals numbers_equal-IsEquality.reflexive 12 up_to_ten up_to_ten-InLimits

-- Two commands with a shortcut each; 0 is the default shortcut.
abbrev with_shortcuts : ℕ → List ℕ → ParamCore (List ℕ)
with_shortcuts k s = record (param_core (name_of k) (name_of k) (name_of k)) {
  default_value = some s;
}

lists_equal : List ℕ → List ℕ → Bool
lists_equal [] [] = true
lists_equal (x ∷ xs) (y ∷ ys) = x == y && lists_equal xs ys
lists_equal _ _ = false

abbrev two_commands : MapParam (List ℕ)
two_commands = record {
  key = name_of 9;
  title = name_of 9;
  description = name_of 9;
  params = (name_of 1, with_shortcuts 1 (83 ∷ [])) ∷ (name_of 2, with_shortcuts 2 (81 ∷ [])) ∷ [];
  validators = shortcut_validator numbers_equal 0 ∷ [];
}

-- Adding an alternative shortcut beside the one that is there.
set_under_duplicate_example :
    set_under lists_equal (name_of 1) (83 ∷ 90 ∷ []) two_commands
    ≡ (some (returned ParamError.duplicate_value), two_commands, [])
unfolding is_current param_at lists_equal numbers_equal get
set_under_duplicate_example =
    set_under_duplicate numbers_equal 0 lists_equal (name_of 1) (83 ∷ 90 ∷ []) (83 ∷ [])
      two_commands (with_shortcuts 1 (83 ∷ [])) refl refl refl refl refl refl
