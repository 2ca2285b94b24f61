-- ===== src/Filter.antt =====
-- src/filter: expressions over predicates.
pub mod ExprNode
pub mod Predicate
