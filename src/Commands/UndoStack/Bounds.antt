-- ===== src/Commands/UndoStack/Bounds.antt =====
-- Calls of the undo stack stay inside its vector (commands/src/commands/undo_stack.cpp).
use molar_tracker.Base.{
  ℕ, zero, suc, ◌-◌, ◌≤◌, ◌<◌, ◌≡◌, refl, Option, none, some, List, [], ◌∷◌, Bool, true, false, inl,
  inr, length, get_elem?, ltb, ltb→lt, arith, Bool-cases, if◌then◌else◌,
}
use molar_tracker.Commands.Command.{Outcome}
use molar_tracker.Commands.Group.{Group, undo_group, redo_group}
use molar_tracker.Commands.UndoStack.{
  UndoStack, StackOutcome, StackError, undo, redo, can_undo, can_redo, finish, undo_top, redo_next,
  at_cursor, nothing_to_undo, nothing_to_redo,
}
use molar_tracker.Commands.UndoStack.Laws.{IsValid, undo-Top, redo-Next}

get_elem?-below {ℓ} :
    {A : Type ℓ} (xs : List A) (i : ℕ) → i < length xs → (x : A) × (get_elem? xs i ≡ some x)
get_elem?-below [] i h = absurd (omega (arith, h))
get_elem?-below (x ∷ xs) zero h = (x, refl)
get_elem?-below (x ∷ xs) (suc i) h = get_elem?-below xs i (omega (arith, h))

module _ {E W : Type 0} where
  -- What a call leaves if it does not read past the end and keeps the groups.
  pub record Safe (s : UndoStack E W) (o : Option (StackOutcome E W)) : Type 0 where
    pub outcome : StackOutcome E W
    pub returned : o ≡ some outcome
    pub commands_kept : outcome.stack.commands ≡ s.commands
    pub valid : IsValid outcome.stack

  finish-Safe :
      (s : UndoStack E W) (i j : ℕ) (o : Outcome E W)
      → i ≤ length s.commands
      → j ≤ length s.commands
      → Safe s (some (finish (at_cursor s i) (at_cursor s j) o))
  unfolding finish
  finish-Safe s i j (none, w) hi hj = record {
    outcome = _;
    returned = refl;
    commands_kept = refl;
    valid = hj;
  }
  finish-Safe s i j (some e, w) hi hj = record {
    outcome = _;
    returned = refl;
    commands_kept = refl;
    valid = hi;
  }

  undo_nothing :
      (s : UndoStack E W) (w : W)
      → ltb 0 s.cursor ≡ false
      → undo s w ≡ some (record { error = some nothing_to_undo; stack = s; world = w })
  unfolding undo can_undo
  undo_nothing s w e = rw e refl

  redo_nothing :
      (s : UndoStack E W) (w : W)
      → ltb s.cursor (length s.commands) ≡ false
      → redo s w ≡ some (record { error = some nothing_to_redo; stack = s; world = w })
  unfolding redo can_redo
  redo_nothing s w e = rw e refl

  choice-Safe :
      (s : UndoStack E W) (b : Bool) (o p : StackOutcome E W)
      → Safe s (some o)
      → Safe s (some p)
      → Safe s (some (if b then o else p))
  choice-Safe s true o p h k = h
  choice-Safe s false o p h k = k

  unchanged-Safe :
      (s : UndoStack E W) (e : Option (StackError E)) (w : W)
      → IsValid s
      → Safe s (some (record { error = e; stack = s; world = w }))
  unchanged-Safe s e w iv = record {
    outcome = _;
    returned = refl;
    commands_kept = refl;
    valid = iv;
  }

  undo_top-Safe :
      (s : UndoStack E W) (w : W) (g : Group E W) → IsValid s → Safe s (some (undo_top s w g))
  unfolding undo_top
  undo_top-Safe s w g iv = choice-Safe s g.undo_redo_disabled _ _ (unchanged-Safe s none w iv) (
      finish-Safe s (s.cursor - 1) (s.cursor - 1) (undo_group g w) (omega (arith, iv))
        (omega (arith, iv)))

  redo_next-Safe :
      (s : UndoStack E W) (w : W) (g : Group E W)
      → IsValid s
      → s.cursor < length s.commands
      → Safe s (some (redo_next s w g))
  unfolding redo_next
  redo_next-Safe s w g iv h =
      choice-Safe s g.undo_redo_disabled _ _ (unchanged-Safe s none w iv)
        (finish-Safe s s.cursor (suc s.cursor) (redo_group g w) iv (omega (arith, h)))

  -- From a valid stack, undo never reads past the end of the vector, keeps all groups, and leaves a
  -- valid stack, whether it succeeds, fails, or has nothing to do.
  pub undo-Safe : (s : UndoStack E W) (w : W) → IsValid s → Safe s (undo s w)
  unfolding can_undo undo_top
  undo-Safe s w iv = elim (Bool-cases (ltb 0 s.cursor)) [
    | inl e ↦
        let t = get_elem?-below s.commands (s.cursor - 1) (omega (arith, iv, ltb→lt _ _ e)) in
        rw (undo-Top s t.0 w (ltb→lt _ _ e, t.1)) (undo_top-Safe s w t.0 iv)
    | inr e ↦ rw (undo_nothing s w e) (unchanged-Safe s _ w iv)
  ]

  -- From a valid stack, redo never reads past the end of the vector, keeps all groups, and leaves a
  -- valid stack, whether it succeeds, fails, or has nothing to do.
  pub redo-Safe : (s : UndoStack E W) (w : W) → IsValid s → Safe s (redo s w)
  redo-Safe s w iv = elim (Bool-cases (ltb s.cursor (length s.commands))) [
    | inl e ↦
        let t = get_elem?-below s.commands s.cursor (ltb→lt _ _ e) in
        rw (redo-Next s t.0 w (ltb→lt _ _ e, t.1)) (redo_next-Safe s w t.0 iv (ltb→lt _ _ e))
    | inr e ↦ rw (redo_nothing s w e) (unchanged-Safe s _ w iv)
  ]
