-- ===== src/Orm/Crud/Accepted.antt =====
-- Binding the values of a statement does not throw (orm/include/orm/crud.tpp, `insert` and `update`).
use molar_tracker.Base.{
  ℕ, suc, ◌+◌, ◌≤◌, ◌≡◌, refl, sym, ap, ◌∙◌, Option, some, List, [], ◌∷◌, ◌++◌, true, false, map,
  length, arith, ok, if◌then◌else◌,
}
use molar_tracker.Base.Text.{Text, Joining}
use mathlib.Core.List.{append-nil, append_assoc}
use molar_tracker.Db.Engine.{
  Engine, DbException, Database, Action, handle_of, continue, ◌>>=◌, pure, throw,
}
use molar_tracker.Db.Database.{Statement, prepare, bind_value}
use molar_tracker.Filter.ExprNode.{is_empty_node}
use molar_tracker.Orm.Field.{SqlValue, bound_value}
use molar_tracker.Orm.Where.Placeholders.{placeholders, numbered}
use molar_tracker.Orm.Query.{with_where, empty_query}
use molar_tracker.Orm.Model.{Model, Row, get_pk_where}
use molar_tracker.Orm.Texts.{insert_text, insert_values, update_text}
use molar_tracker.Orm.Crud.{bind_all, insert_within, run_insert, update, run_update}
use molar_tracker.Orm.Crud.Bindings.{
  ArePlain, insert_text-insert_values, update_text-update_calls, updated_values,
}

-- SQLite accepts each of the values for a statement, at the indices from one on that the statement has
-- a placeholder for.
abbrev pub AcceptsValues : {S : Type 0} → Engine S SqlValue → Text → S → ℕ → List SqlValue → Type 0
AcceptsValues engine sql s i [] = Unit
AcceptsValues engine sql s i (v ∷ vs) =
    (i ≤ placeholders sql → engine.binds sql i v s ≡ true) × AcceptsValues engine sql s (suc i) vs

module _ {S : Type 0} (engine : Engine S SqlValue) where
  bind_value-accepted :
      (i : ℕ) (v : SqlValue) (statement : Statement SqlValue) (d : Database S) (o : Option S)
      (s : S)
      → o ≡ some s
      → engine.binds statement.sql i v s ≡ true
      → continue (handle_of o d) (λ s₁.
        if engine.binds statement.sql i v s₁
        then pure (record statement { bound = statement.bound ++ (i, v) ∷ [] })
        else throw DbException.sqlite_error)
        ≡ (ok (record statement { bound = statement.bound ++ (i, v) ∷ [] }), d)
  bind_value-accepted i v statement d o s e h = rw (e, h) refl

  bind_all-numbered :
      (vs : List SqlValue) (i : ℕ) (statement : Statement SqlValue) (d : Database S) (s : S)
      → AcceptsValues engine statement.sql s i vs
      → d.db ≡ some s
      → i + length vs ≤ suc (placeholders statement.sql)
      → bind_all engine (numbered i vs) statement d
        ≡ (ok (record statement { bound = statement.bound ++ numbered i vs }), d)
  unfolding bind_all bind_value
  bind_all-numbered [] i statement d s accepts e k =
      ap (λ b. (ok (record statement { bound = b }), d)) (sym (append-nil statement.bound))
  bind_all-numbered (v ∷ vs) i statement d s accepts e k =
      ap (λ r. continue r (bind_all engine (numbered (suc i) vs)))
        (bind_value-accepted i v statement d d.db s e (accepts.0 (omega (arith, k))))
      ∙ bind_all-numbered vs (suc i) (record statement { bound = statement.bound ++ (i, v) ∷ [] }) d
          s accepts.1 e (omega (arith, k))
      ∙ ap (λ b. (ok (record statement { bound = b }), d))
          (append_assoc statement.bound ((i, v) ∷ []) (numbered (suc i) vs))

  prepare-accepted :
      (t : Text) (d : Database S) (o : Option S) (s : S)
      → o ≡ some s
      → engine.prepares t s ≡ true
      → continue (handle_of o d) (λ s₁.
        if engine.prepares t s₁
        then pure {A = Statement SqlValue} (record { sql = t; bound = [] })
        else throw DbException.sqlite_error)
        ≡ (ok (record { sql = t; bound = [] }), d)
  prepare-accepted t d o s e h = rw (e, h) refl

  -- A statement that can be prepared, and whose placeholders are as many as the values, is bound.
  bound_statement :
      {A : Type 0} (t : Text) (vs : List SqlValue) (run : Statement SqlValue → Action S A)
      (d : Database S) (s : S)
      → AcceptsValues engine t s 1 vs
      → d.db ≡ some s
      → engine.prepares t s ≡ true
      → placeholders t ≡ length vs
      → (prepare engine t >>= λ statement. bind_all engine (numbered 1 vs) statement >>= run) d
        ≡ run (record { sql = t; bound = numbered 1 vs }) d
  unfolding prepare
  bound_statement t vs run d s accepts e h k =
      ap (λ r. continue r (λ statement. bind_all engine (numbered 1 vs) statement >>= run))
        (prepare-accepted t d d.db s e h)
      ∙ ap (λ r. continue r run)
          (bind_all-numbered vs 1 (record { sql = t; bound = [] }) d s accepts e (omega (arith, k)))

module _ {S : Type 0} (engine : Engine S SqlValue) (mstd : Joining) where
  -- If the database is open, the statement can be prepared, and SQLite accepts the values of
  -- the object at the placeholders that the statement has, then inserting an object of a model, on a table and columns without a placeholder in
  -- their names, runs the statement with exactly its placeholders bound: all fields but an
  -- identifier that the database counts, in their order.
  pub insert_within-run_insert :
      (m : Model) (row : Row) (d : Database S) (s : S)
      → AcceptsValues engine (insert_text mstd m) s 1 (map bound_value (insert_values row))
      → m.columns ≡ map (λ f. f.column) row
      → placeholders m.table_name ≡ 0
      → ArePlain m.columns
      → d.db ≡ some s
      → engine.prepares (insert_text mstd m) s ≡ true
      → (placeholders (insert_text mstd m) ≡ length (map bound_value (insert_values row)))
        × (insert_within engine mstd m row d
            ≡ run_insert engine
                (record {
                  sql = insert_text mstd m;
                  bound = numbered 1 (map bound_value (insert_values row));
                })
                d)
  unfolding insert_within
  insert_within-run_insert m row d s accepts e h k o p =
      let both = insert_text-insert_values mstd m row e h k in
      (
        both.0,
        ap
              (λ calls.
                (prepare engine (insert_text mstd m) >>= λ statement.
                bind_all engine calls statement >>= run_insert engine)
                  d)
              both.1
            ∙ bound_statement engine (insert_text mstd m) (map bound_value (insert_values row))
                (run_insert engine) d s accepts o p both.0,
      )

  -- If the database is open, the statement can be prepared, and SQLite accepts the values of
  -- the object at the placeholders that the statement has, then updating an object of a model with a primary key, on a table and columns
  -- without a placeholder in their names, runs the statement with exactly its placeholders bound: the
  -- fields that are no primary key in their order, and then the primary key.
  pub update-run_update :
      (m : Model) (row : Row) (d : Database S) (s : S)
      → AcceptsValues engine
          (update_text mstd m (with_where (get_pk_where row) empty_query))
          s
          1
          (updated_values row)
      → m.columns ≡ map (λ f. f.column) row
      → placeholders m.table_name ≡ 0
      → ArePlain m.columns
      → is_empty_node (get_pk_where row) ≡ false
      → d.db ≡ some s
      → engine.prepares (update_text mstd m (with_where (get_pk_where row) empty_query)) s ≡ true
      → (placeholders (update_text mstd m (with_where (get_pk_where row) empty_query))
          ≡ length (updated_values row))
        × (update engine mstd m row d
            ≡ run_update engine
                (record {
                  sql = update_text mstd m (with_where (get_pk_where row) empty_query);
                  bound = numbered 1 (updated_values row);
                })
                d)
  unfolding update
  update-run_update m row d s accepts e h k pk o p =
      let both = update_text-update_calls mstd m row e h k in
      (
        both.0,
        rw pk (
            ap
              (λ calls.
                (prepare engine (update_text mstd m (with_where (get_pk_where row) empty_query))
                    >>= λ statement. bind_all engine calls statement >>= run_update engine)
                  d)
              both.1
            ∙ bound_statement engine
                (update_text mstd m (with_where (get_pk_where row) empty_query))
                (updated_values row) (run_update engine) d s accepts o p both.0),
      )
