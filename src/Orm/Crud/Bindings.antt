-- ===== src/Orm/Crud/Bindings.antt =====
-- The placeholders of the statements on tables and the values bound for them
-- (orm/include/orm/crud.tpp).
use molar_tracker.Base.{
  ℕ, zero, suc, ◌+◌, ◌≡◌, refl, ap, ◌∙◌, List, [], ◌∷◌, ◌++◌, Bool, true, false, not, map,
  filter_if, length, length-append, replicate, arith, Bool-cases, inl, inr, if◌then◌else◌, subst,
}
use molar_tracker.Base.Text.{
  codes, Joining, count_of-append, count_of-five, count_of-join, count_in_all,
}
use molar_tracker.Filter.ExprNode.{make_and}
use molar_tracker.Orm.Field.{SqlValue, Column, bound_value, is_auto_increment_pk}
use molar_tracker.Orm.Where.{
  WhereExpr, bind_fields, bind_index, make_where, make_empty_where, Operator,
}
use molar_tracker.Orm.Where.Placeholders.{
  placeholders, numbered, values_of, IsPlain, OneValueEach, bind-numbered, bind_fields-numbered,
  both_numbered, OneValueEach-make_and,
}
use molar_tracker.Orm.Query.{empty_query, with_where, query_operations}
use molar_tracker.Orm.Query.Laws.{count-query_operations}
use molar_tracker.Orm.Model.{Model, Row, get_pk_where, add_pk_where}
use molar_tracker.Orm.Texts.{
  insert_columns, insert_values, insert_text, insert_list, update_columns, update_values,
  update_text,
}
use molar_tracker.Orm.Crud.{update_calls}

-- A table and columns without a placeholder in their names.
abbrev pub ArePlain : List Column → Type 0
ArePlain [] = Unit
ArePlain (c ∷ cs) = IsPlain c × ArePlain cs

ArePlain-filter_if :
    (p : Column → Bool) (cs : List Column) → ArePlain cs → ArePlain (filter_if p cs)
ArePlain-filter_if p [] h = tt
ArePlain-filter_if p (c ∷ cs) h = elim (Bool-cases (p c)) [
  | inl e ↦ rw e (h.0, ArePlain-filter_if p cs h.1)
  | inr e ↦ rw e (ArePlain-filter_if p cs h.1)
]

count_names : (cs : List Column) → ArePlain cs → count_in_all b'?' (map (λ c. c.name) cs) ≡ 0
count_names [] h = refl
count_names (c ∷ cs) h = omega (arith, h.0.0, count_names cs h.1)

count_sets :
    (cs : List Column)
    → ArePlain cs
    → count_in_all b'?' (map (λ c. c.name ++ codes "=?") cs) ≡ length cs
count_sets [] h = refl
count_sets (c ∷ cs) h =
    omega (arith, h.0.0, count_of-append b'?' c.name (codes "=?"), count_sets cs h.1)

count_marks : (n : ℕ) → count_in_all b'?' (replicate n (codes "?")) ≡ n
count_marks zero = refl
count_marks (suc n) = omega (arith, count_marks n)

length-filter_map :
    (p : Column → Bool) (row : Row)
    → length (filter_if p (map (λ f. f.column) row))
      ≡ length (map bound_value (map (λ f. f.value) (filter_if (λ f. p f.column) row)))
length-filter_map p [] = refl
length-filter_map p (f ∷ fs) = elim (Bool-cases (p f.column)) [
  | inl e ↦ rw e (ap suc (length-filter_map p fs))
  | inr e ↦ rw e (length-filter_map p fs)
]

module _ (mstd : Joining) where
  count-insert_list :
      (cs : List Column) → ArePlain cs → placeholders (insert_list mstd cs) ≡ length cs
  count-insert_list [] h = refl
  count-insert_list (c ∷ cs) h = omega (
    arith,
    count_of-five b'?' (codes "(") (mstd.join (map (λ d. d.name) (c ∷ cs)) (codes ", "))
        (codes ") VALUES (") (mstd.join (replicate (length (c ∷ cs)) (codes "?")) (codes ", "))
        (codes ")"),
    count_of-join mstd b'?' (map (λ d. d.name) (c ∷ cs)) (codes ", ") refl,
    count_of-join mstd b'?' (replicate (length (c ∷ cs)) (codes "?")) (codes ", ") refl,
    count_names (c ∷ cs) h,
    count_marks (length (c ∷ cs)),
  )

  count-insert_text :
      (m : Model)
      → placeholders m.table_name ≡ 0
      → ArePlain m.columns
      → placeholders (insert_text mstd m) ≡ length (insert_columns m)
  unfolding insert_text
  count-insert_text m h k = omega (
    arith,
    h,
    count_of-five b'?' (codes "INSERT INTO ") m.table_name (codes " ")
        (insert_list mstd (insert_columns m)) (codes ";"),
    count-insert_list (insert_columns m)
        (ArePlain-filter_if (λ c. not (is_auto_increment_pk c)) m.columns k),
  )

  -- The statement that inserts an object of a model, on a table and columns without a placeholder
  -- in their names, has a placeholder for each field but an identifier that the database counts, and
  -- the values of these fields are bound in their order at the indices from one on.
  pub insert_text-insert_values :
      (m : Model) (row : Row)
      → m.columns ≡ map (λ f. f.column) row
      → placeholders m.table_name ≡ 0
      → ArePlain m.columns
      → (placeholders (insert_text mstd m) ≡ length (map bound_value (insert_values row)))
        × ((bind_fields (insert_values row) (bind_index 0)).0
            ≡ numbered 1 (map bound_value (insert_values row)))
  insert_text-insert_values m row e h k = (
    count-insert_text m h k
        ∙ ap (λ cs. length (filter_if (λ c. not (is_auto_increment_pk c)) cs)) e
        ∙ length-filter_map (λ c. not (is_auto_increment_pk c)) row,
    ap (λ b. b.0) (bind_fields-numbered (insert_values row) 1),
  )

OneValueEach-if :
    (b : Bool) (x y : WhereExpr)
    → OneValueEach x
    → OneValueEach y
    → OneValueEach (if b then x else y)
OneValueEach-if true x y h k = h
OneValueEach-if false x y h k = k

OneValueEach-add_pk_where :
    (row : Row) (e : WhereExpr)
    → ArePlain (map (λ f. f.column) row)
    → OneValueEach e
    → OneValueEach (add_pk_where row e)
unfolding add_pk_where
OneValueEach-add_pk_where [] e h k = k
OneValueEach-add_pk_where (f ∷ fs) e h k =
    let here : WhereExpr = make_where f.column f.value Operator.equal in
    OneValueEach-add_pk_where fs (if f.column.is_pk then make_and e here else e) h.1 (
      OneValueEach-if f.column.is_pk (make_and e here) e (OneValueEach-make_and e here k (h.0, tt))
        k)

pub OneValueEach-get_pk_where :
    (row : Row) → ArePlain (map (λ f. f.column) row) → OneValueEach (get_pk_where row)
unfolding get_pk_where
OneValueEach-get_pk_where row h = OneValueEach-add_pk_where row make_empty_where h tt

-- What an update binds: the values that it sets and those of the primary key.
abbrev pub updated_values : Row → List SqlValue
updated_values row = map bound_value (update_values row) ++ values_of (get_pk_where row)

numbered-update_calls : (row : Row) → update_calls row ≡ numbered 1 (updated_values row)
numbered-update_calls row =
    rw
      (
        bind_fields-numbered (update_values row) 1,
        bind-numbered (get_pk_where row) (1 + length (map bound_value (update_values row))),
      )
      (ap (λ b. b.0)
        (both_numbered (map bound_value (update_values row)) (values_of (get_pk_where row)) 1))

module _ (mstd : Joining) where
  count_pk_query :
      (row : Row)
      → ArePlain (map (λ f. f.column) row)
      → placeholders (query_operations mstd (with_where (get_pk_where row) empty_query))
        ≡ length (values_of (get_pk_where row))
  unfolding with_where make_and
  count_pk_query row h =
      count-query_operations mstd (with_where (get_pk_where row) empty_query)
        (OneValueEach-get_pk_where row h) tt

  -- The statement that updates an object of a model, on a table and columns without a placeholder in
  -- their names, has a placeholder for each value that is set and for each of the primary key, and
  -- these are bound in this order at the indices from one on.
  pub update_text-update_calls :
      (m : Model) (row : Row)
      → m.columns ≡ map (λ f. f.column) row
      → placeholders m.table_name ≡ 0
      → ArePlain m.columns
      → (placeholders (update_text mstd m (with_where (get_pk_where row) empty_query))
          ≡ length (updated_values row))
        × (update_calls row ≡ numbered 1 (updated_values row))
  unfolding update_text
  update_text-update_calls m row e h k = (
    omega (
      arith,
      h,
      count_of-five b'?' (codes "UPDATE ") m.table_name (codes " SET ")
          (mstd.join (map (λ c. c.name ++ codes "=?") (update_columns m)) (codes ", "))
          (query_operations mstd (with_where (get_pk_where row) empty_query)),
      count_of-append b'?'
          (codes "UPDATE "
            ++ m.table_name
            ++ codes " SET "
            ++ mstd.join (map (λ c. c.name ++ codes "=?") (update_columns m)) (codes ", ")
            ++ query_operations mstd (with_where (get_pk_where row) empty_query))
          (codes ";"),
      count_of-join mstd b'?' (map (λ c. c.name ++ codes "=?") (update_columns m)) (codes ", ")
          refl,
      count_sets (update_columns m) (ArePlain-filter_if (λ c. not c.is_pk) m.columns k),
      ap (λ cs. length (filter_if (λ c. not c.is_pk) cs)) e
          ∙ length-filter_map (λ c. not c.is_pk) row,
      count_pk_query row (subst ArePlain e k),
      length-append (map bound_value (update_values row)) (values_of (get_pk_where row)),
    ),
    numbered-update_calls row,
  )
