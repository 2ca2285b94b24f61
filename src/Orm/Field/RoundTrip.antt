-- ===== src/Orm/Field/RoundTrip.antt =====
-- A value is read as it was bound (orm/include/orm/field.tpp, binder.hpp).
use molar_tracker.Base.{
  ◌≡◌, refl, Option, none, some, Bool, true, false, if◌then◌else◌, ok, any, arith,
}
use molar_tracker.Base.Int.{pos}
use molar_tracker.Base.Text.{text_eq}
use molar_tracker.Orm.Field.{
  Kind, strong_id_kind, timestamp_kind, integer_kind, bool_kind, string_kind, enum_kind, Value,
  strong_id_value, timestamp_value, integer_value, bool_value, string_value, enum_value, Column,
  Conversions, read_value, read_from, is_null, sql_value, bound_value,
}

-- A value of a type; an enum has one of its names.
abbrev pub HasKind : Kind → Value → Type 0
HasKind strong_id_kind (strong_id_value i) = Unit
HasKind timestamp_kind (timestamp_value i) = Unit
HasKind integer_kind (integer_value i) = Unit
HasKind bool_kind (bool_value b) = Unit
HasKind string_kind (string_value t) = Unit
HasKind (enum_kind names) (enum_value t) = any (text_eq t) names ≡ true
HasKind _ _ = ⊥

-- A value that a field of the column can have: none only if it is optional.
abbrev pub FitsColumn : Column → Option Value → Type 0
FitsColumn c none = c.is_optional ≡ true
FitsColumn c (some v) = HasKind c.kind v

is_null-sql_value : (v : Value) (b : Bool) → (if b then is_null (sql_value v) else false) ≡ false
is_null-sql_value v b = ground arith

module _ (conversions : Conversions) where
  read_value-sql_value :
      (k : Kind) (v : Value) → HasKind k v → read_value conversions k (sql_value v) ≡ ok v
  unfolding read_value
  read_value-sql_value strong_id_kind (strong_id_value i) h =
      rw (conversions.column_int64-int64 i) refl
  read_value-sql_value timestamp_kind (timestamp_value i) h =
      rw (conversions.column_int64-int64 i) refl
  read_value-sql_value integer_kind (integer_value i) h = rw (conversions.column_int64-int64 i) refl
  read_value-sql_value bool_kind (bool_value true) h =
      rw (conversions.column_int64-int64 (pos 1)) refl
  read_value-sql_value bool_kind (bool_value false) h =
      rw (conversions.column_int64-int64 (pos 0)) refl
  read_value-sql_value string_kind (string_value t) h = rw (conversions.column_text-text t) refl
  read_value-sql_value (enum_kind names) (enum_value t) h =
      rw (conversions.column_text-text t, h) refl
  read_value-sql_value _ _ h = absurd h

  read_from-present :
      (c : Column) (v : Value)
      → HasKind c.kind v
      → read_from conversions c (sql_value v) ≡ ok (some v)
  unfolding read_from
  read_from-present c v h =
      rw (is_null-sql_value v c.is_optional, read_value-sql_value c.kind v h) refl

  -- A field reads what was bound for it.
  pub read_from-bound_value :
      (c : Column) (v : Option Value)
      → FitsColumn c v
      → read_from conversions c (bound_value v) ≡ ok v
  unfolding read_from bound_value
  read_from-bound_value c none h = rw h refl
  read_from-bound_value c (some v) h = read_from-present c v h
