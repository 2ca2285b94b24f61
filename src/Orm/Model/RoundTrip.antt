-- ===== src/Orm/Model/RoundTrip.antt =====
-- Rows are read as they were written (orm/include/orm/fields.tpp).
use molar_tracker.Base.{
  ℕ, suc, ◌+◌, ◌≡◌, refl, sym, ap, ◌∙◌, List, [], ◌∷◌, ◌++◌, map, length, ok, arith, subst,
}
use mathlib.Core.List.{append-nil}
use molar_tracker.Orm.Field.{SqlValue, Conversions, bound_value}
use molar_tracker.Orm.Field.RoundTrip.{FitsColumn, read_from-bound_value}
use molar_tracker.Orm.Model.{Model, Row, column_value, load_fields, load_model, load_tuple}

-- What is bound for the fields of a row.
abbrev pub bound_row : Row → List SqlValue
bound_row row = map (λ f. bound_value f.value) row

abbrev pub AllFit : Row → Type 0
AllFit [] = Unit
AllFit (f ∷ fs) = FitsColumn f.column f.value × AllFit fs

-- An object of a model, whose fields fit.
pub record IsRowOf (m : Model) (row : Row) : Type 0 where
  pub columns : m.columns ≡ map (λ f. f.column) row
  pub fits : AllFit row

abbrev pub AreRowsOf : List Model → List Row → Type 0
AreRowsOf [] [] = Unit
AreRowsOf (m ∷ ms) (row ∷ rows) = IsRowOf m row × AreRowsOf ms rows
AreRowsOf _ _ = ⊥

abbrev pub bound_rows : List Row → List SqlValue
bound_rows [] = []
bound_rows (row ∷ rows) = bound_row row ++ bound_rows rows

-- The columns of a statement from an index on hold values.
abbrev HasAt : List SqlValue → ℕ → List SqlValue → Type 0
HasAt values n [] = Unit
HasAt values n (w ∷ ws) = (column_value values n ≡ w) × HasAt values (suc n) ws

HasAt-behind :
    (v : SqlValue) (values : List SqlValue) (n : ℕ) (ws : List SqlValue)
    → HasAt values n ws
    → HasAt (v ∷ values) (suc n) ws
HasAt-behind v values n [] h = tt
HasAt-behind v values n (w ∷ ws) h = (h.0, HasAt-behind v values (suc n) ws h.1)

HasAt-start : (ws after : List SqlValue) → HasAt (ws ++ after) 0 ws
HasAt-start [] after = tt
HasAt-start (w ∷ ws) after = (refl, HasAt-behind w (ws ++ after) 0 ws (HasAt-start ws after))

HasAt-all : (ws : List SqlValue) → HasAt ws 0 ws
HasAt-all ws = subst (λ x. HasAt x 0 ws) (append-nil ws) (HasAt-start ws [])

plus_zero : (n : ℕ) → n ≡ n + 0
plus_zero n = omega arith

plus_one_more : (n : ℕ) (us : List SqlValue) → suc n + length us ≡ n + suc (length us)
plus_one_more n us = omega arith

HasAt-parts :
    (values : List SqlValue) (n : ℕ) (us ws : List SqlValue)
    → HasAt values n (us ++ ws)
    → HasAt values n us × HasAt values (n + length us) ws
HasAt-parts values n [] ws h = (tt, subst (λ i. HasAt values i ws) (plus_zero n) h)
HasAt-parts values n (u ∷ us) ws h =
    let rest = HasAt-parts values (suc n) us ws h.1 in
    ((h.0, rest.0), subst (λ i. HasAt values i ws) (plus_one_more n us) rest.1)

length-bound_row : (row : Row) → length (map (λ f. f.column) row) ≡ length (bound_row row)
length-bound_row [] = refl
length-bound_row (f ∷ fs) = ap suc (length-bound_row fs)

width : (m : Model) (row : Row) → IsRowOf m row → length m.columns ≡ length (bound_row row)
width m row h = ap length h.columns ∙ length-bound_row row

module _ (conversions : Conversions) where
  load_fields-bound :
      (row : Row) (values : List SqlValue) (n : ℕ)
      → AllFit row
      → HasAt values n (bound_row row)
      → load_fields conversions (map (λ f. f.column) row) n values ≡ ok row
  unfolding load_fields
  load_fields-bound [] values n h k = refl
  load_fields-bound (f ∷ fs) values n h k =
      rw
        (
          k.0,
          read_from-bound_value conversions f.column f.value h.0,
          load_fields-bound fs values (suc n) h.1 k.1,
        )
        refl

  load_model-bound :
      (m : Model) (row : Row) (values : List SqlValue) (n : ℕ)
      → IsRowOf m row
      → HasAt values n (bound_row row)
      → load_model conversions m n values ≡ ok row
  unfolding load_model
  load_model-bound m row values n h k = rw h.columns (load_fields-bound row values n h.fits k)

  load_tuple-at :
      (ms : List Model) (rows : List Row) (values : List SqlValue) (n : ℕ)
      → AreRowsOf ms rows
      → HasAt values n (bound_rows rows)
      → load_tuple conversions ms n values ≡ ok rows
  unfolding load_tuple
  load_tuple-at [] [] values n h k = refl
  load_tuple-at [] (row ∷ rows) values n h k = absurd h
  load_tuple-at (m ∷ ms) [] values n h k = absurd h
  load_tuple-at (m ∷ ms) (row ∷ rows) values n h k =
      let parts = HasAt-parts values n (bound_row row) (bound_rows rows) k in
      rw
        (
          load_model-bound m row values n h.0 parts.0,
          load_tuple-at ms rows values (n + length m.columns) h.1
              (subst (λ i. HasAt values (n + i) (bound_rows rows)) (sym (width m row h.0)) parts.1),
        )
        refl

  -- Reading one object of each of several models from columns that hold what is bound for the
  -- fields of these objects, one object after the other, gives the objects again.
  pub load_tuple-bound_rows :
      (ms : List Model) (rows : List Row)
      → AreRowsOf ms rows
      → load_tuple conversions ms 0 (bound_rows rows) ≡ ok rows
  load_tuple-bound_rows ms rows h =
      load_tuple-at ms rows (bound_rows rows) 0 h (HasAt-all (bound_rows rows))
