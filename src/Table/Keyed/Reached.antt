-- ===== src/Table/Keyed/Reached.antt =====
-- src/table_runtime.rs: the primary index in every history of a table.
use tricti.Base.{
  ℕ, ◌≡◌, sym, true, false, Option, some, List, [], ◌∷◌, String, ◌==◌, text_key, number_key, arith,
  Bool-cases, inl, inr, subst,
}
use tricti.Base.HashMap.{HashMap, get, get-insert, contains_key}
use tricti.Base.HashSet.{contains}
use tricti.Ast.{TableColumn, TableDef}
use tricti.Table.Value.{ColumnValue, value_key}
use tricti.Table.Column.{ColumnData, new_for_type}
use tricti.Table.Schema.{type_name_or, primary_key_column}
use tricti.Table.State.{TableRuntime, LazyEvaluation}
use tricti.Table.Rows.{is_missing, find_by_primary_key}
use tricti.Table.Store.{cell, stored_key}
use tricti.Table.Store.Complete.{is_stored, has_inserted}
use tricti.Table.Keyed.{Agrees}
use tricti.Table.Keyed.Tables.{
  IsKeyed, failed-IsKeyed, stored-IsKeyed, updated-IsKeyed, deleted-IsKeyed,
}
use tricti.Table.Read.{new_with, empty_columns}
use tricti.Table.Steps.{Reached, Reached-keeps}
use tricti.Table.Calls.{live, IsKept}

empty_columns_still :
    (name : String) (columns : List TableColumn) (made : HashMap String ColumnData)
    → contains_key name made ≡ true
    → contains_key name (empty_columns columns made) ≡ true
unfolding empty_columns contains_key
empty_columns_still name [] made h = h
empty_columns_still name (column ∷ columns) made h = empty_columns_still name columns _ (
    ground (
      arith,
      h,
      get-insert column.name name (new_for_type (type_name_or "String" column.column_type)) made,
    ))

-- Every column that is stored has storage in a new table.
pub empty_columns-is_stored :
    (name : String) (columns : List TableColumn) (made : HashMap String ColumnData)
    → is_stored name columns ≡ true
    → contains_key name (empty_columns columns made) ≡ true
unfolding empty_columns is_stored
empty_columns-is_stored name [] made h = cc
empty_columns-is_stored name (column ∷ columns) made h = elim (Bool-cases (column.name == name)) [
  | inl same ↦ empty_columns_still name columns _ (
      has_inserted column.name name (new_for_type (type_name_or "String" column.column_type)) made
        same)
  | inr other ↦ empty_columns-is_stored name columns _ (ground (arith, h, other))
]

-- A primary key that is declared is a column that is stored.
abbrev pub HasStoredKey : TableDef → Type 0
HasStoredKey schema =
    (name : String)
    → primary_key_column schema.columns ≡ some name
    → is_stored name schema.columns ≡ true

module _ {Engine : Type 0} where
  abbrev pub TableIsKeyed : TableRuntime Engine → Type 0
  TableIsKeyed t =
      IsKeyed t.primary_index.column_name t.schema.columns t.storage.columns t.deleted_rows
        t.next_row_id t.primary_index.index

module _ {Engine : Type 0} ⦃lazy : LazyEvaluation Engine⦄ where
  kept : IsKept {Engine = Engine} TableIsKeyed
  kept = record {
    failed = λ t now (names, others) keyed.
        failed-IsKeyed t.schema.columns t.storage.columns now t.deleted_rows t.next_row_id
          t.primary_index.index others names t.primary_index.column_name keyed;
    stored = λ t complete now (names, others) (has, free, writes) keyed.
        stored-IsKeyed t.schema.columns t.storage.columns now t.deleted_rows t.next_row_id
          t.primary_index.index others names complete t.primary_index.column_name keyed free has
          writes;
    updated = λ id t now (names, others) (key, values) keyed.
        updated-IsKeyed t.primary_index.column_name t.schema.columns t.storage.columns now
          t.deleted_rows t.next_row_id t.primary_index.index keyed names key;
    deleted = λ id t alive keyed.
        deleted-IsKeyed t.primary_index.column_name t.schema.columns t.storage.columns
          t.deleted_rows t.next_row_id t.primary_index.index id alive keyed;
  }

  new_with-IsKeyed :
      (schema : TableDef) (engine : Option Engine)
      → HasStoredKey schema
      → TableIsKeyed (new_with schema engine)
  unfolding new_with contains get
  new_with-IsKeyed schema engine declared = (
    λ name e. (declared name e, empty_columns-is_stored name schema.columns [] (declared name e)),
    (λ r gone. cc),
    (λ k r found. cc, λ k r alive here. ground (arith, alive)),
  )

  pub Reached-IsKeyed :
      {schema : TableDef} {t : TableRuntime Engine}
      → HasStoredKey schema
      → Reached schema t
      → TableIsKeyed t
  Reached-IsKeyed {schema} declared reached =
      Reached-keeps TableIsKeyed kept
        (λ t u (indexes, engine, e) keyed. subst TableIsKeyed (sym e) keyed)
        (λ engine. new_with-IsKeyed schema engine declared) reached

  -- In every table that the calls make from a schema whose primary key is a stored column, whatever
  -- calls failed: the index of the primary key leads from a key to a row that is there and has that
  -- key, it leads to every such row, and so no two rows that are there have the same key.
  pub primary_index_right :
      {schema : TableDef} {t : TableRuntime Engine} {pk : String}
      → HasStoredKey schema
      → Reached schema t
      → t.primary_index.column_name ≡ some pk
      → ((k : ColumnValue) (r : ℕ)
          → find_by_primary_key k t ≡ some r
          → (is_missing r t ≡ false) × (cell pk r t.storage.columns ≡ some k))
        × ((k : ColumnValue) (r : ℕ)
            → is_missing r t ≡ false
            → cell pk r t.storage.columns ≡ some k
            → find_by_primary_key k t ≡ some r)
        × ((k : ColumnValue) (r s : ℕ)
            → is_missing r t ≡ false
            → is_missing s t ≡ false
            → cell pk r t.storage.columns ≡ some k
            → cell pk s t.storage.columns ≡ some k
            → r ≡ s)
  unfolding find_by_primary_key is_missing stored_key
  primary_index_right {schema} {t} {pk} declared reached e =
      let agrees =
        subst
          (λ key.
            Agrees (live t.deleted_rows t.next_row_id) (stored_key key t.storage.columns)
              t.primary_index.index)
          e (Reached-IsKeyed declared reached).2 in
      (
        λ k r found. (ground (arith, (agrees.0 k r found).0), (agrees.0 k r found).1),
        λ k r there here. agrees.1 k r (ground (arith, there)) here,
        λ k r s there also here same. ground (
          arith,
          agrees.1 k r (ground (arith, there)) here,
          agrees.1 k s (ground (arith, also)) same,
        ),
      )
