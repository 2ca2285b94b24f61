-- ===== src/Commands/UndoStack.antt =====
-- The undo stack (commands/src/commands/undo_stack.cpp).
use molar_tracker.Base.{
  ℕ, suc, ◌-◌, ◌≡◌, Option, none, some, List, [], ◌∷◌, ◌++◌, Bool, true, false, if◌then◌else◌,
  length, take, get_elem?, ltb,
}
use molar_tracker.Commands.Command.{Outcome, Command, Text}
use molar_tracker.Commands.Group.{Group, undo_group, redo_group, get_label}
use mathlib.Core.Option
pub mod Laws
pub mod Bounds

-- `CommandErrorPtr`: the errors of the stack, and those of the commands.
pub data StackError (E : Type 0) : Type 0 where
  nothing_to_undo nothing_to_redo : StackError E
  command_failed : E → StackError E

pub record UndoStack (E W : Type 0) : Type 0 where
  pub commands : List (Group E W)
  pub cursor : ℕ

-- What `undo` and `redo` leave. `none` stands for an access past the end of the vector.
pub record StackOutcome (E W : Type 0) : Type 0 where
  pub error : Option (StackError E)
  pub stack : UndoStack E W
  pub world : W

module _ {E W : Type 0} where
  abbrev pub at_cursor : UndoStack E W → ℕ → UndoStack E W
  at_cursor s i = record { commands = s.commands; cursor = i }

  pub empty_stack : UndoStack E W
  empty_stack = record { commands = []; cursor = 0 }

  unfoldable pub push : Group E W → UndoStack E W → UndoStack E W
  push g s =
      let kept =
        if ltb s.cursor (length s.commands) then take s.cursor s.commands else s.commands in
      let commands = kept ++ g ∷ [] in record { commands = commands; cursor = length commands }

  unfoldable pub can_undo : UndoStack E W → Bool
  can_undo s = ltb 0 s.cursor

  unfoldable pub can_redo : UndoStack E W → Bool
  can_redo s = ltb s.cursor (length s.commands)

  -- The end of `undo` and `redo`: the call's error, or the stack with the cursor where a success
  -- leaves it.
  unfoldable pub finish : (failed succeeded : UndoStack E W) → Outcome E W → StackOutcome E W
  finish failed succeeded (none, w) = record { error = none; stack = succeeded; world = w }
  finish failed succeeded (some e, w) = record {
    error = some (command_failed e);
    stack = failed;
    world = w;
  }

  -- `undo` moves the cursor before it calls the group.
  unfoldable pub undo_top : UndoStack E W → W → Group E W → StackOutcome E W
  undo_top s w g =
      let below = at_cursor s (s.cursor - 1) in
      if g.undo_redo_disabled
      then record { error = none; stack = s; world = w }
      else finish below below (undo_group g w)

  unfoldable pub undo : UndoStack E W → W → Option (StackOutcome E W)
  undo s w =
      if can_undo s
      then Option.map (undo_top s w) (get_elem? s.commands (s.cursor - 1))
      else some (record { error = some nothing_to_undo; stack = s; world = w })

  -- `redo` moves the cursor after the call, if it succeeded.
  unfoldable pub redo_next : UndoStack E W → W → Group E W → StackOutcome E W
  redo_next s w g =
      if g.undo_redo_disabled
      then record { error = none; stack = s; world = w }
      else finish s (at_cursor s (suc s.cursor)) (redo_group g w)

  unfoldable pub redo : UndoStack E W → W → Option (StackOutcome E W)
  redo s w =
      if can_redo s
      then Option.map (redo_next s w) (get_elem? s.commands s.cursor)
      else some (record { error = some nothing_to_redo; stack = s; world = w })

  -- The labels of the menu entries; `disabled` is the text for a group that cannot be undone or
  -- redone.
  menu_label : Text → Group E W → Text
  menu_label disabled g = if g.undo_redo_disabled then disabled else get_label g

  pub get_undo_label : Text → UndoStack E W → Option Text
  get_undo_label disabled s =
      if can_undo s
      then Option.map (menu_label disabled) (get_elem? s.commands (s.cursor - 1))
      else some []

  pub get_redo_label : Text → UndoStack E W → Option Text
  get_redo_label disabled s =
      if can_redo s
      then Option.map (menu_label disabled) (get_elem? s.commands s.cursor)
      else some []
