-- ===== src/Orm/Where.antt =====
-- Conditions of statements (orm/src/orm/where_clause.cpp, orm/include/orm/where_clause.tpp,
-- orm/src/orm/where_expr.cpp, orm/include/orm/where_expr.tpp, orm/include/orm/index.hpp).
pub mod Placeholders
use molar_tracker.Base.{ℕ, suc, ◌+◌, ◌≡◌, refl, Option, List, [], ◌∷◌, ◌++◌, map, Result, err, ok}
use molar_tracker.Base.Text.{Text, codes}
use molar_tracker.Db.Engine.{DbException}
use molar_tracker.Filter.ExprNode.{Node, empty_node, leaf, and_node, or_node, not_node}
use molar_tracker.Orm.Field.{Value, SqlValue, Column, bound_value, get_full_column_name}

pub data Operator : Type 0 where
  equal not_equal less less_or_equal greater greater_or_equal in_set not_in_set between : Operator

-- `whereOperatorStr`
unfoldable pub where_operator_str : Operator → Text
where_operator_str equal = codes "= ?"
where_operator_str not_equal = codes "!= ?"
where_operator_str less = codes "< ?"
where_operator_str less_or_equal = codes "<= ?"
where_operator_str greater = codes "> ?"
where_operator_str greater_or_equal = codes ">= ?"
where_operator_str in_set = codes "IN (?, ?)"
where_operator_str not_in_set = codes "NOT IN (?, ?)"
where_operator_str between = codes "BETWEEN ? AND ?"

-- `WhereClause`, `InClause` and `NullClause`: a column and the values of its fields.
pub data Clause : Type 0 where
  where_clause : Column → Option Value → Operator → Clause
  in_clause : Column → List (Option Value) → Clause
  null_clause : Column → Clause

abbrev pub WhereExpr : Type 0
WhereExpr = Node Clause

-- The placeholders of an `InClause` from its second one on, and all of them.
unfoldable pub more_placeholders : List (Option Value) → Text
more_placeholders [] = []
more_placeholders (v ∷ vs) = codes ", " ++ codes "?" ++ more_placeholders vs

unfoldable pub in_placeholders : List (Option Value) → Text
in_placeholders [] = []
in_placeholders (v ∷ vs) = codes "?" ++ more_placeholders vs

-- `getDBOperations` of a clause. Each operator has a text, so that of an invalid one is not thrown.
unfoldable pub clause_operations : Clause → Text
clause_operations (where_clause c v o) = get_full_column_name c ++ codes " " ++ where_operator_str o
clause_operations (in_clause c vs) =
    get_full_column_name c ++ codes " IN (" ++ in_placeholders vs ++ codes ")"
clause_operations (null_clause c) = get_full_column_name c ++ codes " IS NULL"

-- `DBOperationVisitor`
unfoldable pub get_db_operations : WhereExpr → Text
get_db_operations empty_node = []
get_db_operations (leaf c) = clause_operations c
get_db_operations (and_node a b) =
    codes "(" ++ get_db_operations a ++ codes ") AND (" ++ get_db_operations b ++ codes ")"
get_db_operations (or_node a b) =
    codes "(" ++ get_db_operations a ++ codes ") OR (" ++ get_db_operations b ++ codes ")"
get_db_operations (not_node a) = codes "NOT (" ++ get_db_operations a ++ codes ")"

-- `bindIndex`: SQLite counts from one.
abbrev pub bind_index : ℕ → ℕ
bind_index index = index + 1

-- The calls that bind values, in their order, and the index behind them.
abbrev pub Binding : Type 0
Binding = List (ℕ × SqlValue) × ℕ

unfoldable pub bind_fields : List (Option Value) → ℕ → Binding
bind_fields [] index = ([], index)
bind_fields (v ∷ vs) index =
    let rest = bind_fields vs (suc index) in ((index, bound_value v) ∷ rest.0, rest.1)

-- `bind` of a clause.
unfoldable pub bind_clause : Clause → ℕ → Binding
bind_clause (where_clause c v o) index = ((index, bound_value v) ∷ [], suc index)
bind_clause (in_clause c vs) index = bind_fields vs index
bind_clause (null_clause c) index = ([], index)

-- `BindVisitor`
unfoldable pub bind : WhereExpr → ℕ → Binding
bind empty_node index = ([], index)
bind (leaf c) index = bind_clause c index
bind (and_node a b) index =
    let left = bind a index in let right = bind b left.1 in (left.0 ++ right.0, right.1)
bind (or_node a b) index =
    let left = bind a index in let right = bind b left.1 in (left.0 ++ right.0, right.1)
bind (not_node a) index = bind a index

-- `makeEmptyWhere`
abbrev pub make_empty_where : WhereExpr
make_empty_where = empty_node

abbrev pub make_where : Column → Option Value → Operator → WhereExpr
make_where c v o = leaf (where_clause c v o)

abbrev pub make_is_null : Column → WhereExpr
make_is_null c = leaf (null_clause c)

unfoldable pub make_in_clause : Column → List (Option Value) → Result DbException WhereExpr
make_in_clause c [] = err DbException.orm_error
make_in_clause c (v ∷ vs) = ok (leaf (in_clause c (v ∷ vs)))
