-- ===== src/Table/Read/Whole.antt =====
-- src/table_runtime.rs: rows that are there can be read, and hold what is stored.
use tricti.Base.{
  ℕ, ◌≡◌, refl, sym, ◌∙◌, subst, Bool, true, false, ◌&&◌, ◌||◌, Option, none, some, List, [], ◌∷◌,
  String, ◌==◌, text_key, arith, Bool-cases, Option-cases, inl, inr, ◌⊎◌, ==_iff, eq_iff,
}
use tricti.Base.Result.{ok, >>=_ok_inv}
use tricti.Base.HashMap.{HashMap, get, get-insert}
use tricti.Ast.{TableColumn}
use tricti.Table.Value.{ColumnValue}
use tricti.Table.State.{TableRuntime, TableRow, LazyEvaluation}
use tricti.Table.Rows.{is_missing}
use tricti.Table.Store.{cell}
use tricti.Table.Store.Complete.{is_stored}
use tricti.Table.Read.{as_row, read_stored, read_column, put_found, read_values, get_row}
use tricti.Table.Calls.{is_live-is_missing}
use tricti.Table.Filled.{IsFilled}

-- No computed column has that name.
unfoldable pub is_computed_named : String → List TableColumn → Bool
is_computed_named name [] = false
is_computed_named name (column ∷ columns) =
    column.name == name && column.is_computed || is_computed_named name columns

module _ {Engine : Type 0} ⦃lazy : LazyEvaluation Engine⦄ (t : TableRuntime Engine) (r : ℕ) where
  read_stored-cell :
      (name : String) (v : ColumnValue)
      → cell name r t.storage.columns ≡ some v
      → read_stored r (get name t.storage.columns) ≡ ok (some v)
  unfolding cell read_stored
  read_stored-cell name v here = elim (Option-cases (get name t.storage.columns)) [
    | inl e ↦ absurd (ground (arith, here, e))
    | inr (column, e) ↦ ground (arith, here, e)
  ]

  read_column_stored :
      (column : TableColumn) (v : ColumnValue)
      → column.is_computed ≡ false
      → cell column.name r t.storage.columns ≡ some v
      → read_column t r column ≡ ok (some v)
  unfolding read_column
  read_column_stored column v e here = rw e (read_stored-cell column.name v here)

  read_column_total :
      (column : TableColumn)
      → (column.is_computed ≡ false
          → (v : ColumnValue) × (cell column.name r t.storage.columns ≡ some v))
      → (found : Option ColumnValue) × (read_column t r column ≡ ok found)
  unfolding read_column
  read_column_total column filled = elim (Bool-cases column.is_computed) [
    | inl e ↦ rw e (_, refl)
    | inr e ↦ let (v, here) = filled e in (some v, read_column_stored column v e here)
  ]

  -- The loop over columns that all have a value.
  read_values_total :
      (columns : List TableColumn) (values : HashMap String ColumnValue)
      → ((name : String)
          → is_stored name columns ≡ true
          → (v : ColumnValue) × (cell name r t.storage.columns ≡ some v))
      → (whole : HashMap String ColumnValue) × (read_values t r columns values ≡ ok whole)
  unfolding read_values is_stored
  read_values_total [] values filled = (values, refl)
  read_values_total (column ∷ columns) values filled =
      let (found, e) =
        read_column_total column
          (λ h. filled column.name (ground (arith, h, eq_iff column.name column.name))) in
      let (whole, made) =
        read_values_total columns (put_found column.name found values)
          (λ name h. filled name (ground (arith, h))) in
      (whole, rw e made)

  get-put_found_other :
      (new name : String) (found : Option ColumnValue) (values : HashMap String ColumnValue)
      → (new == name) ≡ false
      → get name (put_found new found values) ≡ get name values
  unfolding put_found
  get-put_found_other new name none values e = refl
  get-put_found_other new name (some v) values e = ground (arith, get-insert new name v values, e)

  get-put_found_same :
      (new name : String) (found : Option ColumnValue) (v : ColumnValue)
      (values : HashMap String ColumnValue)
      → (new == name) ≡ true
      → found ≡ some v
      → get name (put_found new found values) ≡ some v
  unfolding put_found
  get-put_found_same new name none v values e f = cc
  get-put_found_same new name (some w) v values e f =
      ground (arith, get-insert new name w values, e, f)

  -- What the loop has, or comes to, it keeps to the end.
  read_values-get :
      (name : String) (v : ColumnValue) (columns : List TableColumn)
      (values whole : HashMap String ColumnValue)
      → cell name r t.storage.columns ≡ some v
      → is_computed_named name columns ≡ false
      → read_values t r columns values ≡ ok whole
      → (get name values ≡ some v) ⊎ (is_stored name columns ≡ true)
      → get name whole ≡ some v
  unfolding read_values is_computed_named is_stored
  read_values-get name v [] values whole here clear made (inl h) = ground (arith, h, made)
  read_values-get name v [] values whole here clear made (inr h) = cc
  read_values-get name v (column ∷ columns) values whole here clear made start =
      let (found, e, rest) =
        >>=_ok_inv (λ f. read_values t r columns (put_found column.name f values))
          (read_column t r column) made in
      read_values-get name v columns (put_found column.name found values) whole here
        (ground (arith, clear)) rest
        (elim (Bool-cases (column.name == name)) [
          | inl same ↦
              let stored : column.is_computed ≡ false = ground (arith, same, clear) in
              let name_is : name ≡ column.name = sym ((==_iff column.name name).0 same) in
              inl (
                get-put_found_same column.name name found v values same (
                  ground (
                    arith,
                    e,
                    read_column_stored column v stored
                        (subst (λ n. cell n r t.storage.columns ≡ some v) name_is here),
                  )))
          | inr other ↦ elim start [
            | inl h ↦ inl (get-put_found_other column.name name found values other ∙ h)
            | inr h ↦ inr (ground (arith, h, other))
          ]
        ])

  -- A row that is there can be read.
  pub get_row_total :
      IsFilled t → is_missing r t ≡ false → (row : TableRow) × (get_row r t ≡ ok row)
  unfolding get_row
  get_row_total filled there =
      let (whole, made) =
        read_values_total t.schema.columns []
          (λ name h. (filled.2 name h).1 r (is_live-is_missing t r there)) in
      (record { values = whole }, rw (there, made) refl)

  pub get_row-get :
      (row : TableRow) (name : String) (v : ColumnValue)
      → get_row r t ≡ ok row
      → cell name r t.storage.columns ≡ some v
      → is_stored name t.schema.columns ≡ true
      → is_computed_named name t.schema.columns ≡ false
      → get name row.values ≡ some v
  unfolding get_row
  get_row-get row name v made here stored clear = elim (Bool-cases (is_missing r t)) [
    | inl e ↦ absurd (ground (arith, made, e))
    | inr e ↦
        let (whole, read, same) =
          >>=_ok_inv as_row (read_values t r t.schema.columns []) (ground (arith, made, e)) in
        values_of whole row same
          (read_values-get name v t.schema.columns [] whole here clear read (inr stored))
  ]
    where
      values_of :
          (whole : HashMap String ColumnValue) (row : TableRow)
          → as_row whole ≡ ok row
          → get name whole ≡ some v
          → get name row.values ≡ some v
      values_of whole row same h = ground (arith, same, h)
