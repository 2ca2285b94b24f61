-- ===== src/Commands/Command.antt =====
-- A command (commands/include/commands/command.hpp) acts on a world that the model does not look
-- into: the stores and settings of the application. `undo` and `redo` report an error or none.
use molar_tracker.Base.{Option, none, some}
pub use molar_tracker.Base.Text.{Text}

-- What a call on the world leaves: an error, if any, and the world after it.
abbrev pub Outcome : Type 0 → Type 0 → Type 0
Outcome E W = Option E × W

-- `ICommand`
pub record Command (E W : Type 0) : Type 0 where
  pub label : Text
  pub undo : W → Outcome E W
  pub redo : W → Outcome E W

-- The two calls of a command, and which one takes the other back.
pub data Direction : Type 0 where
  undoing redoing : Direction

abbrev pub opposite : Direction → Direction
opposite undoing = redoing
opposite redoing = undoing

abbrev pub act : {E W : Type 0} → Direction → Command E W → W → Outcome E W
act undoing c w = c.undo w
act redoing c w = c.redo w

-- Run `next` on the world if the call succeeded, and `failed` if not.
abbrev pub resume : {E W B : Type 0} → Outcome E W → (W → B) → (E → W → B) → B
resume (none, w) next failed = next w
resume (some e, w) next failed = failed e w

-- `ICommand::makeAndDo`: the new command and the world after its `redo`, or the error.
abbrev pub make_and_do : {E W : Type 0} → Command E W → W → (Option (Command E W) × Outcome E W)
make_and_do c w = resume (c.redo w) (λ v. (some c, (none, v))) (λ e v. (none, (some e, v)))
