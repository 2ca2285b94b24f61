-- ===== src/Orm/Query.antt =====
-- Query options and joins (orm/src/orm/query_options.cpp, orm/include/orm/query_options.tpp,
-- orm/src/orm/join.cpp, orm/include/orm/join.tpp).
pub mod Laws
use molar_tracker.Base.{
  ℕ, ◌≡◌, refl, Option, none, some, List, [], ◌∷◌, ◌++◌, Bool, true, false, if◌then◌else◌, map,
  Result, err, ok, ◌>>=◌,
}
use molar_tracker.Base.Text.{Text, codes, Joining}
use molar_tracker.Common.Version.{number_text}
use molar_tracker.Db.Engine.{DbException}
use molar_tracker.Filter.ExprNode.{make_and}
use molar_tracker.Orm.Field.{Value, Column}
use molar_tracker.Orm.Where.{
  WhereExpr, Operator, Binding, make_empty_where, make_where, make_in_clause, get_db_operations,
  bind, bind_index,
}

-- `Query`; an order field is ascending or not.
pub record Query : Type 0 where
  pub order_fields : List (Text × Bool)
  pub limit : Option ℕ
  pub where_expr : WhereExpr

abbrev pub empty_query : Query
empty_query = record { order_fields = []; limit = none; where_expr = make_empty_where }

-- `Query::limit`
abbrev pub with_limit : ℕ → Query → Query
with_limit n q = record q { limit = some n }

-- `Query::where(const WhereExpr&)`
unfoldable pub with_where : WhereExpr → Query → Query
with_where e q = record q { where_expr = make_and q.where_expr e }

-- `Query::where(const Value&, Operator)`
abbrev pub with_value : Column → Option Value → Operator → Query → Query
with_value c v o q = with_where (make_where c v o) q

-- `Query::in`
abbrev pub with_values : Column → List (Option Value) → Query → Result DbException Query
with_values c vs q = make_in_clause c vs >>= λ e. ok (with_where e q)

-- `Query::orderBy`
abbrev pub order_by : Column → Bool → Query → Query
order_by c ascending q = record q { order_fields = q.order_fields ++ (c.name, ascending) ∷ [] }

abbrev where_text : Text → Text
where_text [] = []
where_text (c ∷ operations) = codes "WHERE " ++ c ∷ operations

-- `getWhereDBOperations`
unfoldable pub get_where_db_operations : Query → Text
get_where_db_operations q = where_text (get_db_operations q.where_expr)

abbrev order_operation : Text × Bool → Text
order_operation o = o.0 ++ (if o.1 then codes " ASC" else codes " DESC")

abbrev limit_text : Option ℕ → Text
limit_text none = []
limit_text (some n) = codes " LIMIT " ++ number_text n

module _ (mstd : Joining) where
  abbrev order_text : List (Text × Bool) → Text
  order_text [] = []
  order_text (o ∷ os) = codes "ORDER BY " ++ mstd.join (map order_operation (o ∷ os)) (codes ", ")

  -- `Query::getDBOperations`
  unfoldable pub query_operations : Query → Text
  query_operations q = get_where_db_operations q ++ order_text q.order_fields ++ limit_text q.limit

-- `Query::bind`
unfoldable pub bind_query : Query → Binding
bind_query q = bind q.where_expr (bind_index 0)

pub data JoinType : Type 0 where
  inner left right : JoinType

pub record Join : Type 0 where
  pub join_type : JoinType
  pub from_table : Text
  pub from_field : Text
  pub to_table : Text
  pub to_field : Text

-- `innerJoin`, `leftJoin` and `rightJoin`, with `_fromFields`.
abbrev pub join_fields : JoinType → Column → Column → Join
join_fields t from to = record {
  join_type = t;
  from_table = from.table_name;
  from_field = from.name;
  to_table = to.table_name;
  to_field = to.name;
}

abbrev join_word : JoinType → Text
join_word inner = codes "INNER JOIN "
join_word left = codes "LEFT JOIN "
join_word right = codes "RIGHT JOIN "

-- `Join::toSQL`
unfoldable pub join_text : Join → Text
join_text j =
    join_word j.join_type
    ++ j.to_table
    ++ codes " ON "
    ++ (j.from_table ++ codes "." ++ j.from_field)
    ++ codes " = "
    ++ (j.to_table ++ codes "." ++ j.to_field)

pub record Joins : Type 0 where
  pub joins : List Join
  pub is_distinct : Bool

abbrev pub no_joins : Joins
no_joins = record { joins = []; is_distinct = false }

-- `Joins::add` of one join, and of others.
abbrev pub add_join : Join → Joins → Joins
add_join j js = record js { joins = js.joins ++ j ∷ [] }

abbrev pub add_joins : Joins → Joins → Joins
add_joins others js = record js { joins = js.joins ++ others.joins }

-- `Joins::distinct`
abbrev pub distinct : Joins → Joins
distinct js = record js { is_distinct = true }

unfoldable pub texts_of_joins : List Join → Text
texts_of_joins [] = []
texts_of_joins (j ∷ js) = codes " " ++ join_text j ++ texts_of_joins js

-- `Joins::toSQL`
unfoldable pub joins_text : Joins → Text
joins_text js = texts_of_joins js.joins
