-- ===== src/Table/Predicate/Indexed.antt =====
-- src/table_runtime.rs: predicates that an index answers.
use tricti.Base.{ℕ, ◌≡◌, refl, sym, ap, ◌∙◌, false, some, String, text_key}
use tricti.Base.HashMap.{HashMap, get}
use tricti.Base.Result.{Result, ok}
use tricti.Ast.{TableDef, identifier, literal, Literal}
use tricti.Table.Value.{ColumnValue, value_key}
use tricti.Table.Error.{TableError}
use tricti.Table.Schema.{is_key, literal_to_column_value, normalize_value_for_column}
use tricti.Table.State.{SecondaryIndex, TableRow, TableRuntime, LazyEvaluation}
use tricti.Table.Rows.{insert_row, update_row, delete_row}
use tricti.Table.Calls.{IsKept, insert_row-keeps, update_row-keeps, delete_row-keeps}
use tricti.Table.Predicate.{
  PredicateResult, as_lookup, unkeyed_lookup, equality_lookup, evaluate_equality_predicate,
}

abbrev answer_of : SecondaryIndex → String → Literal → TableDef → Result TableError PredicateResult
answer_of index name lit schema = ok (
    as_lookup (
      get (normalize_value_for_column schema.columns name (literal_to_column_value lit))
        index.ordered_index))

module _ {Engine : Type 0} ⦃lazy : LazyEvaluation Engine⦄ where
  abbrev Answers : TableRuntime Engine → String → Literal → TableRuntime Engine → Type 0
  Answers t name lit u =
      evaluate_equality_predicate u (identifier name) (literal lit)
      ≡ evaluate_equality_predicate t (identifier name) (literal lit)

  abbrev SameIndexes : TableRuntime Engine → TableRuntime Engine → Type 0
  SameIndexes t u =
      (u.secondary_indexes ≡ t.secondary_indexes)
      × (u.schema ≡ t.schema)
      × (u.primary_index.column_name ≡ t.primary_index.column_name)

  kept : (t : TableRuntime Engine) → IsKept (SameIndexes t)
  kept t = record {
    failed = λ u now same h. h;
    stored = λ u complete now same stored h. h;
    updated = λ id u now same updated h. h;
    deleted = λ id u alive h. h;
  }

  unkeyed_lookup_indexed :
      (t : TableRuntime Engine) (name : String) (index : SecondaryIndex) (v : ColumnValue)
      → get name t.secondary_indexes ≡ some index
      → unkeyed_lookup t name v ≡ ok (as_lookup (get v index.ordered_index))
  unfolding unkeyed_lookup
  unkeyed_lookup_indexed t name index v e = rw (e, unkeyed_lookup) refl

  indexed_answer :
      (t : TableRuntime Engine) (name : String) (index : SecondaryIndex) (lit : Literal)
      → is_key t.primary_index.column_name name ≡ false
      → get name t.secondary_indexes ≡ some index
      → evaluate_equality_predicate t (identifier name) (literal lit)
        ≡ answer_of index name lit t.schema
  unfolding evaluate_equality_predicate equality_lookup
  indexed_answer t name index lit no_key found =
      rw no_key (unkeyed_lookup_indexed t name index _ found)

  same_answer :
      (t u : TableRuntime Engine) (name : String) (index : SecondaryIndex) (lit : Literal)
      → is_key t.primary_index.column_name name ≡ false
      → get name t.secondary_indexes ≡ some index
      → SameIndexes t u
      → Answers t name lit u
  same_answer t u name index lit no_key found (indexes, schema, key) =
      indexed_answer u name index lit (ap (λ k. is_key k name) key ∙ no_key)
        (ap (get name) indexes ∙ found)
      ∙ ap (answer_of index name lit) schema
      ∙ sym (indexed_answer t name index lit no_key found)

  -- Where a column has a secondary index and is not the primary key, no insertion, update or
  -- deletion changes what an equality on it answers: the index stays as it was made.
  pub index_stale :
      (t : TableRuntime Engine) (name : String) (index : SecondaryIndex) (lit : Literal)
      → is_key t.primary_index.column_name name ≡ false
      → get name t.secondary_indexes ≡ some index
      → ((row : TableRow)
          → evaluate_equality_predicate (insert_row row t).0 (identifier name) (literal lit)
            ≡ evaluate_equality_predicate t (identifier name) (literal lit))
        × ((id : ℕ) (updates : HashMap String ColumnValue)
            → evaluate_equality_predicate
                (update_row id updates t).0
                (identifier name)
                (literal lit)
              ≡ evaluate_equality_predicate t (identifier name) (literal lit))
        × ((id : ℕ)
            → evaluate_equality_predicate (delete_row id t).0 (identifier name) (literal lit)
              ≡ evaluate_equality_predicate t (identifier name) (literal lit))
  index_stale t name index lit no_key found =
      let same : SameIndexes t t = (refl, refl, refl) in
      (
        λ row. same_answer t _ name index lit no_key found (insert_row-keeps (kept t) row t same),
        λ id updates.
            same_answer t _ name index lit no_key found
              (update_row-keeps (kept t) id updates t same),
        λ id. same_answer t _ name index lit no_key found (delete_row-keeps (kept t) id t same),
      )
