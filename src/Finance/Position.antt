-- ===== src/Finance/Position.antt =====
-- Positions (finance/src/finance/position.cpp and positions.cpp).
use molar_tracker.Base.{Option, none, some, List, [], ◌∷◌, Bool, true, false, if◌then◌else◌}
use molar_tracker.Base.Int.{ℤ}
use molar_tracker.Common.Container.Map.{IdMap, add_unchecked, get_values}

-- `Position`, with points in time as numbers.
pub record Position : Type 0 where
  pub id : ℤ
  pub created_at : ℤ
  pub closed_at : Option ℤ

unfoldable pub is_open : Position → Bool
is_open p = elim p.closed_at [ none ↦ true | some t ↦ false ]

-- `Positions::addUnchecked`, under the position's own identifier.
unfoldable pub add_position : IdMap Position → Position → IdMap Position
add_position m p = add_unchecked m p.id p

unfoldable pub add_positions : IdMap Position → List Position → IdMap Position
add_positions m [] = m
add_positions m (p ∷ ps) = add_positions (add_position m p) ps

add_open : IdMap Position → List Position → IdMap Position
add_open m [] = m
add_open m (p ∷ ps) = add_open (if is_open p then add_position m p else m) ps

-- `Positions::getOpenPositions`
pub get_open_positions : IdMap Position → IdMap Position
get_open_positions m = add_open [] (get_values m)
