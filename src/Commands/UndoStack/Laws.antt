-- ===== src/Commands/UndoStack/Laws.antt =====
-- What the undo stack promises (commands/src/commands/undo_stack.cpp).
use molar_tracker.Base.{
  ℕ, zero, suc, ◌-◌, ◌≤◌, ◌<◌, ◌≡◌, refl, sym, ap, ◌∙◌, some, List, [], ◌∷◌, ◌++◌, false, inl, inr,
  length, take, get_elem?, ltb, lt→ltb, arith, Bool-cases, if◌then◌else◌,
}
use molar_tracker.Commands.Group.{Group, undo_group}
use molar_tracker.Commands.UndoStack.{
  UndoStack, push, undo, redo, can_undo, can_redo, command_failed, finish, undo_top, redo_next,
  at_cursor,
}

get_elem?-append_length {ℓ} :
    {A : Type ℓ} (xs : List A) (x : A) → get_elem? (xs ++ x ∷ []) (length xs) ≡ some x
get_elem?-append_length [] x = refl
get_elem?-append_length (y ∷ ys) x = get_elem?-append_length ys x

suc_pred : (n : ℕ) → suc n - 1 ≡ n
suc_pred n = omega arith

ltb_self : (n : ℕ) → ltb n n ≡ false
ltb_self n = ground arith

take-length {ℓ} : {A : Type ℓ} (n : ℕ) (xs : List A) → length xs ≤ n → take n xs ≡ xs
take-length zero [] h = refl
take-length zero (x ∷ xs) h = absurd (omega (arith, h))
take-length (suc n) [] h = refl
take-length (suc n) (x ∷ xs) h = ap (◌∷◌ x) (take-length n xs (omega (arith, h)))

kept_below {ℓ} :
    {A : Type ℓ} (n : ℕ) (xs : List A) → (if ltb n (length xs) then take n xs else xs) ≡ take n xs
kept_below n xs = elim (Bool-cases (ltb n (length xs))) [
  | inl e ↦ rw e refl
  | inr e ↦ rw e (sym (take-length n xs (ground (arith, e))))
]

length-snoc {ℓ} : {A : Type ℓ} (xs : List A) (x : A) → length (xs ++ x ∷ []) ≡ suc (length xs)
length-snoc [] x = refl
length-snoc (y ∷ ys) x = ap suc (length-snoc ys x)

last_Top {ℓ} :
    {A : Type ℓ} (xs : List A) (x : A)
    → (0 < length (xs ++ x ∷ [])) × (get_elem? (xs ++ x ∷ []) (length (xs ++ x ∷ []) - 1) ≡ some x)
last_Top xs x = (
  rw (length-snoc xs x) (omega arith),
  rw (length-snoc xs x, suc_pred (length xs)) (get_elem?-append_length xs x),
)

module _ {E W : Type 0} where
  -- The cursor never points past the end.
  abbrev pub IsValid : UndoStack E W → Type 0
  IsValid s = s.cursor ≤ length s.commands

  -- The group that the next undo calls, and the one that the next redo calls.
  abbrev pub Top : UndoStack E W → Group E W → Type 0
  Top s g = (0 < s.cursor) × (get_elem? s.commands (s.cursor - 1) ≡ some g)

  abbrev pub Next : UndoStack E W → Group E W → Type 0
  Next s g = (s.cursor < length s.commands) × (get_elem? s.commands s.cursor ≡ some g)

  pub undo-Top :
      (s : UndoStack E W) (g : Group E W) (w : W) → Top s g → undo s w ≡ some (undo_top s w g)
  unfolding undo can_undo
  undo-Top s g w (h, k) = rw (lt→ltb 0 s.cursor h, k) refl

  pub redo-Next :
      (s : UndoStack E W) (g : Group E W) (w : W) → Next s g → redo s w ≡ some (redo_next s w g)
  unfolding redo can_redo
  redo-Next s g w (h, k) = rw (lt→ltb _ _ h, k) refl

  -- If undoing the enabled group on top of a valid stack reports an error, the stack reports it with the
  -- world that the group left, and the cursor goes down by one all the same: the next redo calls this
  -- group, which was not undone.
  pub failed_undo :
      (s : UndoStack E W) (g : Group E W) (w v x : W) (e : E)
      → IsValid s
      → Top s g
      → g.undo_redo_disabled ≡ false
      → undo_group g w ≡ (some e, v)
      → (undo s w
          ≡ some (record {
            error = some (command_failed e);
            stack = at_cursor s (s.cursor - 1);
            world = v;
          }))
        × (redo (at_cursor s (s.cursor - 1)) x ≡ some (redo_next (at_cursor s (s.cursor - 1)) x g))
  unfolding undo_top finish
  failed_undo s g w v x e iv t hd h = (
    undo-Top s g w t ∙ rw (h, hd) refl,
    redo-Next (at_cursor s (s.cursor - 1)) g x (omega (arith, t.0, iv), t.1),
  )

  -- Pushing keeps the groups below the cursor, drops those above it, puts the new group on top, and
  -- leaves nothing to redo.
  pub push_lem :
      (s : UndoStack E W) (g : Group E W)
      → IsValid s
      → ((push g s).commands ≡ take s.cursor s.commands ++ g ∷ [])
        × Top (push g s) g
        × (can_redo (push g s) ≡ false)
        × IsValid (push g s)
  unfolding push can_redo
  push_lem s g iv =
      let kept =
        if ltb s.cursor (length s.commands) then take s.cursor s.commands else s.commands in
      (
        ap (λ xs. xs ++ g ∷ []) (kept_below s.cursor s.commands),
        last_Top kept g,
        ltb_self (length (kept ++ g ∷ [])),
        omega arith,
      )
