-- ===== src/Orm/Where/Placeholders.antt =====
-- The placeholders in the text of a condition and the values bound for them
-- (orm/src/orm/where_expr.cpp, orm/include/orm/where_clause.tpp).
use molar_tracker.Base.{
  ℕ, suc, ◌+◌, ◌≡◌, refl, Option, List, [], ◌∷◌, ◌++◌, map, length, length-append, arith, sym, ap,
  ◌∙◌,
}
use molar_tracker.Base.Text.{Text, count_of, count_of-append, codes, count_of-three, count_of-five}
use molar_tracker.Filter.ExprNode.{make_and, empty_node, leaf, and_node, or_node, not_node}
use molar_tracker.Orm.Field.{Value, SqlValue, Column, bound_value, get_full_column_name}
use molar_tracker.Orm.Where.{
  Operator, equal, not_equal, less, less_or_equal, greater, greater_or_equal, in_set, not_in_set,
  between, Clause, where_clause, in_clause, null_clause, WhereExpr, Binding, get_db_operations,
  clause_operations, where_operator_str, in_placeholders, more_placeholders, bind, bind_clause,
  bind_fields,
}

abbrev pub placeholders : Text → ℕ
placeholders t = count_of b'?' t

-- The values of a condition from left to right.
abbrev clause_values : Clause → List SqlValue
clause_values (where_clause c v o) = bound_value v ∷ []
clause_values (in_clause c vs) = map bound_value vs
clause_values (null_clause c) = []

abbrev pub values_of : WhereExpr → List SqlValue
values_of empty_node = []
values_of (leaf c) = clause_values c
values_of (and_node a b) = values_of a ++ values_of b
values_of (or_node a b) = values_of a ++ values_of b
values_of (not_node a) = values_of a

-- Values with the indices from one on.
abbrev pub numbered : ℕ → List SqlValue → List (ℕ × SqlValue)
numbered i [] = []
numbered i (v ∷ vs) = (i, v) ∷ numbered (suc i) vs

-- A column whose names have no placeholder.
abbrev pub IsPlain : Column → Type 0
IsPlain c = (placeholders c.name ≡ 0) × (placeholders c.table_name ≡ 0)

-- An operator that compares with one value.
abbrev TakesOneValue : Operator → Type 0
TakesOneValue in_set = ⊥
TakesOneValue not_in_set = ⊥
TakesOneValue between = ⊥
TakesOneValue _ = Unit

abbrev pub OneValueEach : WhereExpr → Type 0
OneValueEach empty_node = Unit
OneValueEach (leaf (where_clause c v o)) = IsPlain c × TakesOneValue o
OneValueEach (leaf (in_clause c vs)) = IsPlain c
OneValueEach (leaf (null_clause c)) = IsPlain c
OneValueEach (and_node a b) = OneValueEach a × OneValueEach b
OneValueEach (or_node a b) = OneValueEach a × OneValueEach b
OneValueEach (not_node a) = OneValueEach a

numbered-append :
    (i : ℕ) (vs ws : List SqlValue)
    → numbered i (vs ++ ws) ≡ numbered i vs ++ numbered (i + length vs) ws
numbered-append i [] ws = ap (λ n. numbered n ws) (omega arith)
numbered-append i (v ∷ vs) ws =
    ap (◌∷◌ (i, v))
      (numbered-append (suc i) vs ws ∙ ap (λ n. numbered (suc i) vs ++ numbered n ws) (omega arith))

count_more : (vs : List (Option Value)) → placeholders (more_placeholders vs) ≡ length vs
unfolding more_placeholders
count_more [] = refl
count_more (v ∷ vs) = omega (arith, count_more vs)

count_in : (vs : List (Option Value)) → placeholders (in_placeholders vs) ≡ length vs
unfolding in_placeholders
count_in [] = refl
count_in (v ∷ vs) = omega (arith, count_more vs)

count_column : (c : Column) → IsPlain c → placeholders (get_full_column_name c) ≡ 0
unfolding get_full_column_name
count_column c h = omega (arith, count_of-three b'?' c.table_name (codes ".") c.name, h.0, h.1)

length-map : (vs : List (Option Value)) → length (map bound_value vs) ≡ length vs
length-map [] = refl
length-map (v ∷ vs) = ap suc (length-map vs)

count_operator : (o : Operator) → TakesOneValue o → placeholders (where_operator_str o) ≡ 1
unfolding where_operator_str
count_operator equal h = refl
count_operator not_equal h = refl
count_operator less h = refl
count_operator less_or_equal h = refl
count_operator greater h = refl
count_operator greater_or_equal h = refl
count_operator in_set h = absurd h
count_operator not_in_set h = absurd h
count_operator between h = absurd h

count_clause :
    (c : Clause)
    → OneValueEach (leaf c)
    → placeholders (clause_operations c) ≡ length (clause_values c)
unfolding clause_operations
count_clause (where_clause c v o) h = omega (
  arith,
  count_of-three b'?' (get_full_column_name c) (codes " ") (where_operator_str o),
  count_column c h.0,
  count_operator o h.1,
)
count_clause (in_clause c vs) h = omega (
  arith,
  count_of-three b'?' (get_full_column_name c ++ codes " IN (") (in_placeholders vs) (codes ")"),
  count_of-append b'?' (get_full_column_name c) (codes " IN ("),
  count_column c h,
  count_in vs,
  length-map vs,
)
count_clause (null_clause c) h =
    omega
      (arith, count_of-append b'?' (get_full_column_name c) (codes " IS NULL"), count_column c h)

-- The text of a condition on columns without a placeholder in their names, whose comparisons are
-- with one value each, has as many placeholders as the condition has values.
pub placeholders-get_db_operations :
    (e : WhereExpr) → OneValueEach e → placeholders (get_db_operations e) ≡ length (values_of e)
unfolding get_db_operations
placeholders-get_db_operations empty_node h = refl
placeholders-get_db_operations (leaf c) h = count_clause c h
placeholders-get_db_operations (and_node a b) h = omega (
  arith,
  count_of-five b'?' (codes "(") (get_db_operations a) (codes ") AND (") (get_db_operations b)
      (codes ")"),
  placeholders-get_db_operations a h.0,
  placeholders-get_db_operations b h.1,
  length-append (values_of a) (values_of b),
)
placeholders-get_db_operations (or_node a b) h = omega (
  arith,
  count_of-five b'?' (codes "(") (get_db_operations a) (codes ") OR (") (get_db_operations b)
      (codes ")"),
  placeholders-get_db_operations a h.0,
  placeholders-get_db_operations b h.1,
  length-append (values_of a) (values_of b),
)
placeholders-get_db_operations (not_node a) h = omega (
  arith,
  count_of-three b'?' (codes "NOT (") (get_db_operations a) (codes ")"),
  placeholders-get_db_operations a h,
)

same_calls :
    (calls : List (ℕ × SqlValue)) (i j : ℕ) → i ≡ j → ◌≡◌ {A = Binding} (calls, i) (calls, j)
same_calls calls i j e = ap (λ n. (calls, n)) e

pub both_numbered :
    (vs ws : List SqlValue) (i : ℕ)
    → ◌≡◌ {A = Binding}
        (numbered i vs ++ numbered (i + length vs) ws, i + length vs + length ws)
        (numbered i (vs ++ ws), i + length (vs ++ ws))
both_numbered vs ws i =
    rw (sym (numbered-append i vs ws))
      (same_calls _ (i + length vs + length ws) _ (omega (arith, length-append vs ws)))

pub bind_fields-numbered :
    (vs : List (Option Value)) (i : ℕ)
    → bind_fields vs i ≡ (numbered i (map bound_value vs), i + length (map bound_value vs))
unfolding bind_fields
bind_fields-numbered [] i = same_calls [] i _ (omega arith)
bind_fields-numbered (v ∷ vs) i =
    rw (bind_fields-numbered vs (suc i))
      (same_calls _ (suc i + length (map bound_value vs)) _ (omega arith))

bind_clause-numbered :
    (c : Clause) (i : ℕ)
    → bind_clause c i ≡ (numbered i (clause_values c), i + length (clause_values c))
unfolding bind_clause
bind_clause-numbered (where_clause c v o) i = same_calls _ (suc i) _ (omega arith)
bind_clause-numbered (in_clause c vs) i = bind_fields-numbered vs i
bind_clause-numbered (null_clause c) i = same_calls [] i _ (omega arith)

-- The values of a condition are bound from left to right at consecutive indices.
pub bind-numbered :
    (e : WhereExpr) (i : ℕ) → bind e i ≡ (numbered i (values_of e), i + length (values_of e))
unfolding bind
bind-numbered empty_node i = same_calls [] i _ (omega arith)
bind-numbered (leaf c) i = bind_clause-numbered c i
bind-numbered (and_node a b) i =
    rw (bind-numbered a i, bind-numbered b (i + length (values_of a)))
      (both_numbered (values_of a) (values_of b) i)
bind-numbered (or_node a b) i =
    rw (bind-numbered a i, bind-numbered b (i + length (values_of a)))
      (both_numbered (values_of a) (values_of b) i)
bind-numbered (not_node a) i = bind-numbered a i

pub OneValueEach-make_and :
    (a b : WhereExpr) → OneValueEach a → OneValueEach b → OneValueEach (make_and a b)
unfolding make_and
OneValueEach-make_and a b h k = ground arith
