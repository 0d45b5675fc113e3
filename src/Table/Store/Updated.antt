-- ===== src/Table/Store/Updated.antt =====
-- src/table_runtime.rs: what the loop over the updates of a row leaves in the storage.
use tricti.Base.{
  ℕ, ◌≡◌, ◌≢◌, refl, ap, true, false, Option, none, some, List, [], ◌∷◌, String, text_key,
  nat_beq_iff, arith, Option-cases, inl, inr, eq_iff,
}
use tricti.Base.Result.{Result, ok, err}
use tricti.Base.HashMap
use tricti.Base.HashMap.{HashMap, get, contains_key, get-insert}
use tricti.Ast.{TableColumn}
use tricti.Table.Value.{ColumnValue}
use tricti.Table.Error.{TableError}
use tricti.Table.Column.{ColumnData, set_value}
use tricti.Table.Column.Cells.{get_value-set_value}
use tricti.Table.Schema.{validate_column_value}
use tricti.Table.Store.{cell, and_then, put_value, update_in, update_value, apply_updates}
use tricti.Table.Store.Stored.{cell-insert, cell-some, and_then-keeps}

-- A property of the storage that a step of the loop may not break.
module _ (P : HashMap String ColumnData → Type 0) (i : ℕ) where
  -- What a written column keeps, every update of a row keeps.
  put_value-keeps :
      (name : String) (v : ColumnValue) (column : ColumnData) (columns : HashMap String ColumnData)
      (written : Result TableError ColumnData)
      → set_value i v column ≡ written
      → P columns
      → ((made : ColumnData)
          → set_value i v column ≡ ok made
          → P (HashMap.insert name made columns))
      → P (put_value name columns written).0
  unfolding put_value
  put_value-keeps name v column columns (ok made) e h step = step made e
  put_value-keeps name v column columns (err x) e h step = h

  update_in-keeps :
      (name : String) (v : ColumnValue) (columns : HashMap String ColumnData)
      (found : Option ColumnData)
      → get name columns ≡ found
      → P columns
      → ((column made : ColumnData)
          → get name columns ≡ some column
          → set_value i v column ≡ ok made
          → P (HashMap.insert name made columns))
      → P (update_in i name v columns found).0
  unfolding update_in
  update_in-keeps name v columns none e h step = h
  update_in-keeps name v columns (some column) e h step =
      put_value-keeps name v column columns (set_value i v column) refl h
        (λ made. step column made e)

  pub apply_updates-keeps :
      (schema : List TableColumn) (updates : HashMap String ColumnValue)
      (columns : HashMap String ColumnData)
      → P columns
      → ((name : String) (v : ColumnValue) (now : HashMap String ColumnData)
            (column made : ColumnData)
          → contains_key name updates ≡ true
          → P now
          → get name now ≡ some column
          → set_value i v column ≡ ok made
          → P (HashMap.insert name made now))
      → P (apply_updates schema i updates columns).0
  unfolding apply_updates update_value contains_key get
  apply_updates-keeps schema [] columns h step = h
  apply_updates-keeps schema ((name, v) ∷ updates) columns h step =
      and_then-keeps {P = P}
        (and_then (columns, validate_column_value schema name v) (update_value i name v))
        (apply_updates schema i updates)
        (and_then-keeps {P = P} (columns, validate_column_value schema name v)
          (update_value i name v) h
          (λ now k.
            update_in-keeps name v now (get name now) refl k
              (λ column made. step name v now column made (ground (arith, eq_iff name name)) k)))
        (λ now k.
          apply_updates-keeps schema updates now k
            (λ n w later column made there. step n w later column made (ground (arith, there))))

module _ (schema : List TableColumn) (i : ℕ) (updates : HashMap String ColumnValue)
    (columns : HashMap String ColumnData) where
  pub apply_updates-cell_other :
      (name : String) (j : ℕ)
      → i ≢ j
      → cell name j (apply_updates schema i updates columns).0 ≡ cell name j columns
  apply_updates-cell_other name j apart =
      apply_updates-keeps (λ now. cell name j now ≡ cell name j columns) i schema updates columns
        refl
        (λ n v now column made there h found e. ground (
          arith,
          h,
          cell-insert n name made j now,
          cell-some n column j now found,
          get_value-set_value i j v column made e,
          nat_beq_iff i j,
          eq_iff n name,
          ap (λ m. cell m j now) {x = n} {y = name},
        ))

  -- A column that has no update keeps every value.
  pub apply_updates-cell_kept :
      (name : String) (j : ℕ)
      → contains_key name updates ≡ false
      → cell name j (apply_updates schema i updates columns).0 ≡ cell name j columns
  apply_updates-cell_kept name j kept =
      apply_updates-keeps (λ now. cell name j now ≡ cell name j columns) i schema updates columns
        refl
        (λ n v now column made there h found e. ground (
          arith,
          h,
          there,
          kept,
          cell-insert n name made j now,
          eq_iff n name,
          ap (λ m. contains_key m updates) {x = n} {y = name},
        ))

  rewritten :
      (name : String) (j : ℕ) (n : String) (v : ColumnValue) (now : HashMap String ColumnData)
      (column made : ColumnData)
      → (w : ColumnValue) × (cell name j now ≡ some w)
      → get n now ≡ some column
      → set_value i v column ≡ ok made
      → (w : ColumnValue) × (cell name j (HashMap.insert n made now) ≡ some w)
  rewritten name j n v now column made (w, k) found e =
      elim (Option-cases (cell name j (HashMap.insert n made now))) [
        | inr some_value ↦ some_value
        | inl gone ↦ absurd (
            ground (
              arith,
              gone,
              k,
              cell-insert n name made j now,
              cell-some n column j now found,
              get_value-set_value i j v column made e,
              eq_iff n name,
              ap (λ m. cell m j now) {x = n} {y = name},
            ))
      ]

  -- A row that has a value in a column has one afterwards.
  pub apply_updates-cell-some :
      (name : String) (j : ℕ) {v : ColumnValue}
      → cell name j columns ≡ some v
      → (w : ColumnValue) × (cell name j (apply_updates schema i updates columns).0 ≡ some w)
  apply_updates-cell-some name j {v} h =
      apply_updates-keeps (λ now. (w : ColumnValue) × (cell name j now ≡ some w)) i schema updates
        columns (v, h)
        (λ n v now column made there k found e. rewritten name j n v now column made k found e)

  pub apply_updates-contains_key :
      (name : String)
      → contains_key name (apply_updates schema i updates columns).0 ≡ contains_key name columns
  unfolding contains_key
  apply_updates-contains_key name =
      apply_updates-keeps (λ now. contains_key name now ≡ contains_key name columns) i schema
        updates columns refl
        (λ n v now column made there h found e.
          ground (arith, h, get-insert n name made now, found, eq_iff n name))
