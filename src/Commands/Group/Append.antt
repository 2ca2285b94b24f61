-- ===== src/Commands/Group/Append.antt =====
-- Groups that are joined by `operator<<` (commands/src/commands/commands.cpp).
use molar_tracker.Base.{◌≡◌, refl, sym, ap, none, some, List, [], ◌∷◌, ◌++◌, inl, inr}
use molar_tracker.Commands.Command.{Outcome, Command, Direction, redoing, opposite, act}
use molar_tracker.Commands.Group.{Group, run, roll_back, redo_group, append}
use molar_tracker.Commands.Group.Running.{outcome_cases, Leads}

append_nil {ℓ} : {A : Type ℓ} (xs : List A) → xs ++ [] ≡ xs
append_nil [] = refl
append_nil (x ∷ xs) = ap (◌∷◌ x) (append_nil xs)

module _ {E W : Type 0} where
  failed_or_not : {e : E} {u w : W} (o : Outcome E W) → o ≡ (some e, w) → o ≡ (none, u) → ⊥
  failed_or_not o h k = cc

  -- Taking commands back ends with an error, one way or the other.
  roll_back_fails :
      (d : Direction) (e : E) (done : List (Command E W)) (v u : W)
      → roll_back d e done v ≡ (none, u)
      → ⊥
  unfolding roll_back
  roll_back_fails d e [] v u h = cc
  roll_back_fails d e (c ∷ done) v u h = elim (outcome_cases (act (opposite d) c v)) [
    | inl (w, k) ↦ roll_back_fails d e done w u (rw k at h)
    | inr (f, w, k) ↦ absurd (failed_or_not (some f, w) refl (rw k at h))
  ]

  Leads-run :
      (d : Direction) (rest done : List (Command E W)) (v w : W)
      → run d rest done v ≡ (none, w)
      → Leads d rest v w
  unfolding run
  Leads-run d [] done v w h = ap (λ o. o.1) h
  Leads-run d (c ∷ rest) done v w h = elim (outcome_cases (act d c v)) [
    | inl (u, k) ↦ (u, k, Leads-run d rest (c ∷ done) u w (rw k at h))
    | inr (e, u, k) ↦ absurd (roll_back_fails d e done u w (rw k at h))
  ]

  run-Leads :
      (d : Direction) (rest done : List (Command E W)) (v w : W)
      → Leads d rest v w
      → run d rest done v ≡ (none, w)
  unfolding run
  run-Leads d [] done v w h = ap (λ u. (none, u)) h
  run-Leads d (c ∷ rest) done v w (u, h, k) = rw h (run-Leads d rest (c ∷ done) u w k)

  Leads-append :
      (d : Direction) (xs ys : List (Command E W)) (v u w : W)
      → Leads d xs v u
      → Leads d ys u w
      → Leads d (xs ++ ys) v w
  Leads-append d [] ys v u w h k = rw h k
  Leads-append d (x ∷ xs) ys v u w (z, q, h) k = (z, q, Leads-append d xs ys z u w h k)

  commands-append :
      (g h : Group E W) (cs : List (Command E W))
      → h.commands ≡ cs
      → (append g h).commands ≡ g.commands ++ cs
  unfolding append
  commands-append g h [] e = rw e (sym (append_nil g.commands))
  commands-append g h (c ∷ cs) e = rw e refl

  -- If the redo of one group succeeds and then that of a second one, so does the redo of the two
  -- joined, with the same world at the end.
  pub redo_group-append :
      (g h : Group E W) (v u w : W)
      → redo_group g v ≡ (none, u)
      → redo_group h u ≡ (none, w)
      → redo_group (append g h) v ≡ (none, w)
  unfolding redo_group
  redo_group-append g h v u w p q = rw (commands-append g h h.commands refl) (
      run-Leads redoing (g.commands ++ h.commands) [] v w (
        Leads-append redoing g.commands h.commands v u w (Leads-run redoing g.commands [] v u p)
          (Leads-run redoing h.commands [] u w q)))
