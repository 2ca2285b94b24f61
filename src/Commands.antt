-- ===== src/Commands.antt =====
-- src/commands: commands that can be undone, groups of them, and the undo stack.
pub mod Command
pub mod Group
pub mod UndoStack
