-- ===== src/Examples/Commands.antt =====
-- Witnesses for groups of commands and the undo stack: counters between 0 and 9.
use molar_tracker.Base.{
  ℕ, ◌+◌, ◌-◌, ◌≡◌, refl, none, some, [], ◌∷◌, ◌++◌, false, ◌||◌, if◌then◌else◌, ltb, arith, take,
}
use molar_tracker.Commands.Command.{Command, redoing, act}
use molar_tracker.Commands.Group.{Group, group_command, undo_group, redo_group, run, roll_back}
use molar_tracker.Commands.Group.Running.{Ran, group_command-Ran}
use molar_tracker.Commands.UndoStack.{
  UndoStack, push, undo, redo, can_redo, at_cursor, command_failed, redo_next,
}
use molar_tracker.Commands.UndoStack.Laws.{IsValid, Top, failed_undo, push_lem}

-- Adds to the counter; an error leaves it as it is.
abbrev add : ℕ → Command ℕ ℕ
add k = record {
  label = k ∷ [];
  undo = λ w. if ltb w k || ltb 9 w then (some k, w) else (none, w - k);
  redo = λ w. if ltb 9 (w + k) then (some k, w) else (none, w + k);
}

abbrev group : ℕ → ℕ → Group ℕ ℕ
group a b = record { commands = add a ∷ add b ∷ []; label = []; undo_redo_disabled = false }

group_command-Ran_example :
    Ran redoing (add 2 ∷ add 8 ∷ []) [] 1 (act redoing (group_command (group 2 8)) 1)
group_command-Ran_example = group_command-Ran redoing (group 2 8) 1

-- Two groups, the second one undone.
abbrev two_groups : UndoStack ℕ ℕ
two_groups = record { commands = group 2 3 ∷ group 1 6 ∷ []; cursor = 1 }

two_groups-IsValid : IsValid two_groups
two_groups-IsValid = omega arith

two_groups-Top : Top two_groups (group 2 3)
two_groups-Top = (omega arith, refl)

failed_undo_example :
    (undo two_groups 4
      ≡ some
          (record { error = some (command_failed 2); stack = at_cursor two_groups 0; world = 4 }))
    × (redo (at_cursor two_groups 0) 4 ≡ some (redo_next (at_cursor two_groups 0) 4 (group 2 3)))
unfolding undo_group redo_group run roll_back
failed_undo_example =
    failed_undo two_groups (group 2 3) 4 4 4 2 two_groups-IsValid two_groups-Top refl refl

push_lem_example :
    ((push (group 1 1) two_groups).commands ≡ take 1 two_groups.commands ++ group 1 1 ∷ [])
    × Top (push (group 1 1) two_groups) (group 1 1)
    × (can_redo (push (group 1 1) two_groups) ≡ false)
    × IsValid (push (group 1 1) two_groups)
push_lem_example = push_lem two_groups (group 1 1) two_groups-IsValid
