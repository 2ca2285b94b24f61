-- ===== src/Commands/Group.antt =====
-- Groups of commands (commands/src/commands/commands.cpp).
use molar_tracker.Base.{
  ℕ, ◌≡◌, Option, none, some, List, [], ◌∷◌, ◌++◌, Bool, true, false, ◌||◌, if◌then◌else◌, length,
  map, ◌==◌, ◌&&◌,
}
use molar_tracker.Commands.Command.{
  Text, Outcome, Command, Direction, undoing, redoing, opposite, act, resume,
}
pub mod Running
pub mod Append

abbrev pub is_empty {ℓ} : {A : Type ℓ} → List A → Bool
is_empty [] = true
is_empty (x ∷ xs) = false

-- The list backwards, in front of another.
abbrev pub reverse_onto {ℓ} : {A : Type ℓ} → List A → List A → List A
reverse_onto [] ys = ys
reverse_onto (x ∷ xs) ys = reverse_onto xs (x ∷ ys)

-- " > "
abbrev pub separator : Text
separator = 32 ∷ 62 ∷ 32 ∷ []

-- `Commands`
pub record Group (E W : Type 0) : Type 0 where
  pub commands : List (Command E W)
  pub label : Text
  pub undo_redo_disabled : Bool

-- The label of two groups that are joined.
combined : Text → Text → Text
combined a b = if is_empty a then b else if is_empty b then a else a ++ separator ++ b

-- The loop of `Commands::getCombinedLabels`.
pub combine_labels : Text → List Text → Text
combine_labels acc [] = acc
combine_labels acc (l ∷ ls) =
    combine_labels (if is_empty l then acc else (if is_empty acc then l else acc ++ separator ++ l))
      ls

module _ {E W : Type 0} where
  -- The inner loops of `undo` and `redo`: take back what is done, the last one first. An error here
  -- is returned in place of the one that started it.
  unfoldable pub roll_back : Direction → E → List (Command E W) → W → Outcome E W
  roll_back d e [] w = (some e, w)
  roll_back d e (c ∷ done) w =
      resume (act (opposite d) c w) (λ v. roll_back d e done v) (λ f v. (some f, v))

  -- The outer loops, over the commands still to do and those done, the last one first.
  unfoldable pub run : Direction → (rest done : List (Command E W)) → W → Outcome E W
  run d [] done w = (none, w)
  run d (c ∷ rest) done w =
      resume (act d c w) (λ v. run d rest (c ∷ done) v) (λ e v. roll_back d e done v)

  -- `Commands::undo` goes from the last command to the first, `Commands::redo` from the first.
  unfoldable pub undo_group : Group E W → W → Outcome E W
  undo_group g w = run undoing (reverse_onto g.commands []) [] w

  unfoldable pub redo_group : Group E W → W → Outcome E W
  redo_group g w = run redoing g.commands [] w

  -- `Commands::_fromCommand`
  pub from_command : Command E W → Group E W
  from_command c = record { commands = c ∷ []; label = []; undo_redo_disabled = false }

  -- `operator<<` for another group.
  pub append : Group E W → Group E W → Group E W
  append g h = if is_empty h.commands then g else record {
    commands = g.commands ++ h.commands;
    label = combined g.label h.label;
    undo_redo_disabled = g.undo_redo_disabled || h.undo_redo_disabled;
  }

  pub clear_sub_commands : Group E W → Group E W
  clear_sub_commands g = record {
    commands = [];
    label = g.label;
    undo_redo_disabled = g.undo_redo_disabled;
  }

  pub disable_undo_redo : Bool → Group E W → Group E W
  disable_undo_redo b g = record { commands = g.commands; label = g.label; undo_redo_disabled = b }

  only_label : List (Command E W) → Text
  only_label (c ∷ []) = c.label
  only_label (c ∷ d ∷ cs) = []
  only_label [] = []

  -- `Commands::getLabel`
  pub get_label : Group E W → Text
  get_label g = if is_empty g.label then only_label g.commands else g.label

  -- `Commands::getLabels`
  pub get_labels : List (Command E W) → List Text
  get_labels [] = []
  get_labels (c ∷ cs) = c.label ∷ get_labels cs

  pub get_combined_labels : Group E W → Text
  get_combined_labels g = combine_labels [] (get_labels g.commands)

  -- A group seen as one command.
  abbrev pub group_command : Group E W → Command E W
  group_command g = record { label = get_label g; undo = undo_group g; redo = redo_group g }
