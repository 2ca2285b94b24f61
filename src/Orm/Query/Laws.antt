-- ===== src/Orm/Query/Laws.antt =====
-- What a query's text has and binds (orm/src/orm/query_options.cpp).
use molar_tracker.Base.{
  ◌≡◌, ℕ, zero, suc, ◌+◌, ◌/◌, ◌%◌, refl, Option, none, some, List, [], ◌∷◌, Bool, true, false, map,
  length, arith, ltb, ltb→lt, Bool-cases, inl, inr,
}
use molar_tracker.Base.Text.{
  Text, codes, Joining, count_of-append, count_of-three, count_of-join, count_in_all,
}
use molar_tracker.Common.Version.{decimal, number_text}
use molar_tracker.Orm.Where.{get_db_operations}
use molar_tracker.Orm.Where.Placeholders.{
  placeholders, values_of, numbered, OneValueEach, bind-numbered, placeholders-get_db_operations,
}
use molar_tracker.Orm.Query.{
  Query, query_operations, get_where_db_operations, bind_query, where_text, order_operation,
  order_text, limit_text,
}

count-decimal : (k n : ℕ) → placeholders (decimal k n) ≡ 0
unfolding decimal
count-decimal zero n = refl
count-decimal (suc k) n = elim (Bool-cases (ltb n 10)) [
  | inl e ↦ rw e (ground (arith, ltb→lt n 10 e))
  | inr e ↦
      rw (e, count_of-append b'?' (decimal k (n / 10)) ((b'0' + n % 10) ∷ []))
        (ground (arith, count-decimal k (n / 10)))
]

count-number_text : (n : ℕ) → placeholders (number_text n) ≡ 0
unfolding number_text
count-number_text n = count-decimal 20 n

-- Order fields whose names have no placeholder.
abbrev pub ArePlainOrders : List (Text × Bool) → Type 0
ArePlainOrders [] = Unit
ArePlainOrders (o ∷ os) = (placeholders o.0 ≡ 0) × ArePlainOrders os

count-order_operation :
    (name : Text) (ascending : Bool)
    → placeholders name ≡ 0
    → placeholders (order_operation (name, ascending)) ≡ 0
count-order_operation name true h = omega (arith, h, count_of-append b'?' name (codes " ASC"))
count-order_operation name false h = omega (arith, h, count_of-append b'?' name (codes " DESC"))

count-orders :
    (os : List (Text × Bool)) → ArePlainOrders os → count_in_all b'?' (map order_operation os) ≡ 0
count-orders [] h = refl
count-orders (o ∷ os) h = omega (arith, count-order_operation o.0 o.1 h.0, count-orders os h.1)

count-where_text : (t : Text) → placeholders (where_text t) ≡ placeholders t
count-where_text [] = refl
count-where_text (c ∷ t) = refl

count-limit : (l : Option ℕ) → placeholders (limit_text l) ≡ 0
count-limit none = refl
count-limit (some n) = count-number_text n

module _ (mstd : Joining) where
  count-order_text :
      (os : List (Text × Bool)) → ArePlainOrders os → placeholders (order_text mstd os) ≡ 0
  count-order_text [] h = refl
  count-order_text (o ∷ os) h = omega (
    arith,
    count_of-join mstd b'?' (map order_operation (o ∷ os)) (codes ", ") refl,
    count-orders (o ∷ os) h,
  )

  pub count-query_operations :
      (q : Query)
      → OneValueEach q.where_expr
      → ArePlainOrders q.order_fields
      → placeholders (query_operations mstd q) ≡ length (values_of q.where_expr)
  unfolding query_operations get_where_db_operations
  count-query_operations q h k = omega (
    arith,
    count_of-three b'?' (where_text (get_db_operations q.where_expr))
        (order_text mstd q.order_fields) (limit_text q.limit),
    count-where_text (get_db_operations q.where_expr),
    placeholders-get_db_operations q.where_expr h,
    count-order_text q.order_fields k,
    count-limit q.limit,
  )

  -- A query on columns and order fields without a placeholder in their names, whose comparisons are
  -- with one value each, has a placeholder for each value, and the values are bound from left to
  -- right at the indices from one on.
  pub bind_query-query_operations :
      (q : Query)
      → OneValueEach q.where_expr
      → ArePlainOrders q.order_fields
      → (placeholders (query_operations mstd q) ≡ length (values_of q.where_expr))
        × (bind_query q
            ≡ (numbered 1 (values_of q.where_expr), 1 + length (values_of q.where_expr)))
  unfolding bind_query
  bind_query-query_operations q h k = (count-query_operations q h k, bind-numbered q.where_expr 1)
