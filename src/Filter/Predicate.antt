-- ===== src/Filter/Predicate.antt =====
-- Predicates (filter/include/filter/predicate.hpp and predicate.tpp).
use molar_tracker.Base.{◌≡◌, Bool, true, ◌&&◌, ◌||◌, not, if◌then◌else◌, arith}
use molar_tracker.Filter.ExprNode.{
  Node, empty_node, leaf, and_node, or_node, not_node, make_and, make_or, make_not, is_empty_node,
}

-- `evaluatePredicate`; the empty node matches everything.
unfoldable pub evaluate_predicate : {T : Type 0} → Node (T → Bool) → T → Bool
evaluate_predicate empty_node t = true
evaluate_predicate (leaf f) t = f t
evaluate_predicate (and_node a b) t = evaluate_predicate a t && evaluate_predicate b t
evaluate_predicate (or_node a b) t = evaluate_predicate a t || evaluate_predicate b t
evaluate_predicate (not_node a) t = not (evaluate_predicate a t)

evaluate_predicate-make_and :
    {T : Type 0} (a b : Node (T → Bool)) (t : T)
    → evaluate_predicate (make_and a b) t ≡ (evaluate_predicate a t && evaluate_predicate b t)
unfolding evaluate_predicate make_and
evaluate_predicate-make_and a b t = ground arith

evaluate_predicate-make_or :
    {T : Type 0} (a b : Node (T → Bool)) (t : T)
    → evaluate_predicate (make_or a b) t ≡ (
        if is_empty_node a
        then evaluate_predicate b t
        else if is_empty_node b
        then evaluate_predicate a t
        else (evaluate_predicate a t || evaluate_predicate b t))
unfolding evaluate_predicate make_or
evaluate_predicate-make_or a b t = ground arith

evaluate_predicate-make_not :
    {T : Type 0} (a : Node (T → Bool)) (t : T)
    → evaluate_predicate (make_not a) t
      ≡ (if is_empty_node a then true else not (evaluate_predicate a t))
unfolding evaluate_predicate make_not
evaluate_predicate-make_not a t = ground arith

-- The three constructors evaluate as "and", "or" and "not", except that an empty node counts as
-- absent in an "or" and stays empty under a "not".
pub evaluate_predicate-connectives :
    {T : Type 0} (a b : Node (T → Bool)) (t : T)
    → (evaluate_predicate (make_and a b) t ≡ (evaluate_predicate a t && evaluate_predicate b t))
      × (evaluate_predicate (make_or a b) t ≡ (
          if is_empty_node a
          then evaluate_predicate b t
          else if is_empty_node b
          then evaluate_predicate a t
          else (evaluate_predicate a t || evaluate_predicate b t)))
      × (evaluate_predicate (make_not a) t
          ≡ (if is_empty_node a then true else not (evaluate_predicate a t)))
evaluate_predicate-connectives a b t = (
  evaluate_predicate-make_and a b t,
  evaluate_predicate-make_or a b t,
  evaluate_predicate-make_not a t,
)

-- The laws of De Morgan hold for all nodes, the empty one included.
pub evaluate_predicate-de_morgan :
    {T : Type 0} (a b : Node (T → Bool)) (t : T)
    → (evaluate_predicate (make_not (make_and a b)) t
        ≡ evaluate_predicate (make_or (make_not a) (make_not b)) t)
      × (evaluate_predicate (make_not (make_or a b)) t
          ≡ evaluate_predicate (make_and (make_not a) (make_not b)) t)
unfolding evaluate_predicate make_and make_or make_not
evaluate_predicate-de_morgan a b t = (ground arith, ground arith)
