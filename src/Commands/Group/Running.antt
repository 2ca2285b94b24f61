-- ===== src/Commands/Group/Running.antt =====
-- A group of commands is undone and redone as one (commands/src/commands/commands.cpp).
use molar_tracker.Base.{◌≡◌, refl, ap, sym, subst, none, some, List, ◌++◌, [], ◌∷◌, ◌⊎◌, inl, inr}
use molar_tracker.Commands.Command.{
  Outcome, Command, Direction, undoing, redoing, opposite, act, resume,
}
use molar_tracker.Commands.Group.{
  Group, run, roll_back, undo_group, redo_group, group_command, reverse_onto,
}

pub outcome_cases :
    {E W : Type 0} (o : Outcome E W)
    → ((w : W) × (o ≡ (none, w))) ⊎ ((e : E) × (w : W) × (o ≡ (some e, w)))
outcome_cases (none, w) = inl (w, refl)
outcome_cases (some e, w) = inr (e, w, refl)

module _ {E W : Type 0} where
  -- Calling the commands in order leads from one world to another without an error.
  abbrev pub Leads : Direction → List (Command E W) → W → W → Type 0
  Leads d [] v w = v ≡ w
  Leads d (c ∷ cs) v w = (u : W) × (act d c v ≡ (none, u)) × Leads d cs u w

  -- Calling the commands in order stops at the first one that reports an error.
  pub record Stops (d : Direction) (cs : List (Command E W)) (v : W) (e : E) (w : W) : Type 0 where
    pub before : List (Command E W)
    pub stopped : Command E W
    pub after : List (Command E W)
    pub reached : W
    pub order : cs ≡ before ++ stopped ∷ after
    pub leads : Leads d before v reached
    pub failed : act d stopped reached ≡ (some e, w)

  abbrev Stops-more :
      (d : Direction) (c : Command E W) (cs : List (Command E W)) (v u : W) (e : E) (w : W)
      → act d c v ≡ (none, u)
      → Stops d cs u e w
      → Stops d (c ∷ cs) v e w
  Stops-more d c cs v u e w h s = record {
    before = c ∷ s.before;
    stopped = s.stopped;
    after = s.after;
    reached = s.reached;
    order = ap (◌∷◌ c) s.order;
    leads = (u, h, s.leads);
    failed = s.failed;
  }

  abbrev Stops-here :
      (d : Direction) (c : Command E W) (cs : List (Command E W)) (v : W) (e : E) (w : W)
      → act d c v ≡ (some e, w)
      → Stops d (c ∷ cs) v e w
  Stops-here d c cs v e w h = record {
    before = [];
    stopped = c;
    after = cs;
    reached = v;
    order = refl;
    leads = refl;
    failed = h;
  }

  -- Taking commands back after an error: all of them are, and the error is reported, or one of them
  -- cannot be, and its error is reported.
  abbrev pub TakesBack : Direction → E → List (Command E W) → W → Outcome E W → Type 0
  TakesBack d e done v o =
      ((w : W) × Leads (opposite d) done v w × (o ≡ (some e, w)))
      ⊎ ((f : E) × (w : W) × Stops (opposite d) done v f w × (o ≡ (some f, w)))

  TakesBack-more :
      (d : Direction) (e : E) (c : Command E W) (done : List (Command E W)) (v u : W)
      (o : Outcome E W)
      → act (opposite d) c v ≡ (none, u)
      → TakesBack d e done u o
      → TakesBack d e (c ∷ done) v o
  TakesBack-more d e c done v u o h (inl (w, l, q)) = inl (w, (u, h, l), q)
  TakesBack-more d e c done v u o h (inr (f, w, s, q)) =
      inr (f, w, Stops-more (opposite d) c done v u f w h s, q)

  roll_back-TakesBack :
      (d : Direction) (e : E) (done : List (Command E W)) (v : W)
      → TakesBack d e done v (roll_back d e done v)
  unfolding roll_back
  roll_back-TakesBack d e [] v = inl (v, refl, refl)
  roll_back-TakesBack d e (c ∷ done) v = elim (outcome_cases (act (opposite d) c v)) [
    | inl (u, h) ↦
        subst (TakesBack d e (c ∷ done) v)
          (ap (λ r. resume r (λ x. roll_back d e done x) (λ f x. (some f, x))) (sym h))
          (TakesBack-more d e c done v u (roll_back d e done u) h (roll_back-TakesBack d e done u))
    | inr (f, w, h) ↦
        subst (TakesBack d e (c ∷ done) v)
          (ap (λ r. resume r (λ x. roll_back d e done x) (λ f x. (some f, x))) (sym h))
          (inr (f, w, Stops-here (opposite d) c done v f w h, refl))
  ]

  -- A run over commands: all of them succeed, or one reports an error and those before it, and those done
  -- earlier, are taken back, the last one first.
  abbrev pub Ran : Direction → (rest done : List (Command E W)) → W → Outcome E W → Type 0
  Ran d rest done v o =
      ((w : W) × Leads d rest v w × (o ≡ (none, w)))
      ⊎ ((e : E) × (u : W) × (s : Stops d rest v e u) × TakesBack d e (reverse_onto s.before done) u
            o)

  Ran-more :
      (d : Direction) (c : Command E W) (rest done : List (Command E W)) (v u : W) (o : Outcome E W)
      → act d c v ≡ (none, u)
      → Ran d rest (c ∷ done) u o
      → Ran d (c ∷ rest) done v o
  Ran-more d c rest done v u o h (inl (w, l, q)) = inl (w, (u, h, l), q)
  Ran-more d c rest done v u o h (inr (e, x, s, t)) = inr (e, x, Stops-more d c rest v u e x h s, t)

  run-Ran :
      (d : Direction) (rest done : List (Command E W)) (v : W)
      → Ran d rest done v (run d rest done v)
  unfolding run
  run-Ran d [] done v = inl (v, refl, refl)
  run-Ran d (c ∷ rest) done v = elim (outcome_cases (act d c v)) [
    | inl (u, h) ↦
        subst (Ran d (c ∷ rest) done v)
          (ap (λ r. resume r (λ x. run d rest (c ∷ done) x) (λ e x. roll_back d e done x)) (sym h))
          (Ran-more d c rest done v u (run d rest (c ∷ done) u) h (run-Ran d rest (c ∷ done) u))
    | inr (e, u, h) ↦
        subst (Ran d (c ∷ rest) done v)
          (ap (λ r. resume r (λ x. run d rest (c ∷ done) x) (λ e x. roll_back d e done x)) (sym h))
          (inr (e, u, Stops-here d c rest v e u h, roll_back-TakesBack d e done u))
  ]

  -- The order in which a group is gone through: undone from the last command, redone from the first.
  abbrev pub in_order : Direction → List (Command E W) → List (Command E W)
  in_order undoing cs = reverse_onto cs []
  in_order redoing cs = cs

  -- Undoing or redoing a group of any commands either calls all of them, from the last or from the first
  -- one, each in the world that the one before left; or it stops at the first that reports an error and
  -- takes those before it back in the opposite order, and then reports this error, or that of the
  -- first one that cannot be taken back.
  pub group_command-Ran :
      (d : Direction) (g : Group E W) (w : W)
      → Ran d (in_order d g.commands) [] w (act d (group_command g) w)
  unfolding undo_group redo_group
  group_command-Ran undoing g w = run-Ran undoing (reverse_onto g.commands []) [] w
  group_command-Ran redoing g w = run-Ran redoing g.commands [] w
