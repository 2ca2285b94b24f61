-- ===== src/Orm/Field.antt =====
-- The fields of a model (orm/include/orm/field.hpp and field.tpp, sql_type.hpp, binder.hpp).
pub mod RoundTrip
use molar_tracker.Base.{
  ℕ, ◌≡◌, refl, Option, none, some, List, [], ◌∷◌, ◌++◌, Bool, true, false, not, if◌then◌else◌,
  Result, err, ok, ◌>>=◌, find_if, any,
}
use molar_tracker.Base.Int.{ℤ, pos, negsuc, eqb_ℤ, is_negative, magnitude}
use molar_tracker.Base.Text.{Text, text_eq, codes}
use molar_tracker.Common.Version.{number_text}
use molar_tracker.Db.Engine.{DbException}

-- The types a field has in the models; an enum has a list of names.
pub data Kind : Type 0 where
  strong_id_kind timestamp_kind integer_kind bool_kind string_kind : Kind
  enum_kind : List Text → Kind

-- A value of a field.
pub data Value : Type 0 where
  strong_id_value timestamp_value integer_value : ℤ → Value
  bool_value : Bool → Value
  string_value enum_value : Text → Value

-- A value of a column.
pub data SqlValue : Type 0 where
  null : SqlValue
  int64 : ℤ → SqlValue
  text : Text → SqlValue

-- `foreign_key_t`
pub record ForeignKey : Type 0 where
  pub on_delete_cascade : Bool
  pub table : Text
  pub field : Text

-- What a `Field` type says of its column: name, table, type, and options.
pub record Column : Type 0 where
  pub name : Text
  pub table_name : Text
  pub kind : Kind
  pub is_optional : Bool
  pub is_pk : Bool
  pub is_auto_increment : Bool
  pub is_unique : Bool
  pub is_not_null : Bool
  pub foreign_key : Option ForeignKey

-- A field: its column and its value, `none` for an optional without a value.
pub record Field : Type 0 where
  pub column : Column
  pub value : Option Value

-- `isAutoIncrementPk`
abbrev pub is_auto_increment_pk : Column → Bool
is_auto_increment_pk c = if c.is_pk then c.is_auto_increment else false

-- `isFk`
abbrev pub is_fk : Column → Bool
is_fk c = elim c.foreign_key [ none ↦ false | some k ↦ true ]

abbrev pub sql_type : Kind → Text
sql_type string_kind = codes "TEXT"
sql_type (enum_kind names) = codes "TEXT"
sql_type _ = codes "INTEGER"

-- A piece of text that is there under a condition.
abbrev pub text_if : Bool → Text → Text
text_if b t = if b then t else []

unfoldable pub ddl : Column → Text
ddl c =
    c.name
    ++ codes " "
    ++ sql_type c.kind
    ++ text_if c.is_pk (codes " PRIMARY KEY")
    ++ text_if (not (is_fk c)) (
        text_if c.is_auto_increment (codes " AUTOINCREMENT")
        ++ text_if c.is_not_null (codes " NOT NULL")
        ++ text_if c.is_unique (codes " UNIQUE"))

unfoldable pub get_fk_constraints : Column → Text
get_fk_constraints c = elim c.foreign_key [
  | none ↦ []
  | some k ↦
      codes "FOREIGN KEY ("
      ++ c.name
      ++ codes ") REFERENCES"
      ++ codes " "
      ++ k.table
      ++ codes "("
      ++ k.field
      ++ codes ")"
      ++ (if k.on_delete_cascade then codes " ON DELETE CASCADE" else codes " ON DELETE RESTRICT")
]

unfoldable pub get_full_column_name : Column → Text
get_full_column_name c = c.table_name ++ codes "." ++ c.name

-- `std::to_string` of an integer.
abbrev pub integer_text : ℤ → Text
integer_text i =
    if is_negative i then b'-' ∷ number_text (magnitude i) else number_text (magnitude i)

abbrev value_text : Value → Text
value_text (strong_id_value i) = integer_text i
value_text (timestamp_value i) = integer_text i
value_text (integer_value i) = integer_text i
value_text (bool_value b) = number_text (if b then 1 else 0)
value_text (string_value t) = codes "\"" ++ t ++ codes "\""
value_text (enum_value t) = t

-- `valueAsString`
unfoldable pub value_as_string : Option Value → Text
value_as_string none = codes "null"
value_as_string (some v) = value_text v

-- `binder::bind`
abbrev pub sql_value : Value → SqlValue
sql_value (strong_id_value i) = int64 i
sql_value (timestamp_value i) = int64 i
sql_value (integer_value i) = int64 i
sql_value (bool_value b) = int64 (pos (if b then 1 else 0))
sql_value (string_value t) = text t
sql_value (enum_value t) = text t

-- The value that `Field::bind` binds.
unfoldable pub bound_value : Option Value → SqlValue
bound_value none = null
bound_value (some v) = sql_value v

-- `sqlite3_column_int64` and `sqlite3_column_text`, which convert between the types of SQLite.
pub record Conversions : Type 0 where
  pub column_int64 : SqlValue → ℤ
  pub column_text : SqlValue → Text
  pub column_int64-int64 : (i : ℤ) → column_int64 (int64 i) ≡ i
  pub column_text-text : (t : Text) → column_text (text t) ≡ t

-- `columnIsNull`
abbrev pub is_null : SqlValue → Bool
is_null null = true
is_null _ = false

module _ (conversions : Conversions) where
  -- `binder::read`; a text that is no name of the enum throws.
  unfoldable pub read_value : Kind → SqlValue → Result DbException Value
  read_value strong_id_kind v = ok (strong_id_value (conversions.column_int64 v))
  read_value timestamp_kind v = ok (timestamp_value (conversions.column_int64 v))
  read_value integer_kind v = ok (integer_value (conversions.column_int64 v))
  read_value bool_kind v = ok (bool_value (not (eqb_ℤ (conversions.column_int64 v) (pos 0))))
  read_value string_kind v = ok (string_value (conversions.column_text v))
  read_value (enum_kind names) v =
      if any (text_eq (conversions.column_text v)) names
      then ok (enum_value (conversions.column_text v))
      else err DbException.orm_error

  -- The value that `Field::readFrom` leaves in the field.
  unfoldable pub read_from : Column → SqlValue → Result DbException (Option Value)
  read_from c v =
      if (if c.is_optional then is_null v else false)
      then ok none
      else read_value c.kind v >>= λ x. ok (some x)
