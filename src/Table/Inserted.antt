-- ===== src/Table/Inserted.antt =====
-- src/table_runtime.rs: what is inserted can be read.
use tricti.Base.{
  ℕ, ◌≡◌, refl, sym, ap, ◌∙◌, subst, Bool, true, false, Option, none, some, [], String, text_key,
  arith, inr, number_key, if◌then◌else◌,
}
use tricti.Base.Result.{Result, ok, err}
use tricti.Base.HashMap.{HashMap, get, contains_key, HasUniqueKeys}
use tricti.Ast.{TableDef}
use tricti.Table.Value.{ColumnValue, value_key}
use tricti.Table.Error.{TableError, duplicate_primary_key}
use tricti.Table.Column.{ColumnData}
use tricti.Table.State.{TableRow, TableRuntime, LazyEvaluation}
use tricti.Table.Rows.{
  is_missing, finish_insert, store_row, insert_keyed, insert_complete, insert_row,
}
use tricti.Table.Store.{cell, complete_row, store_values, Written}
use tricti.Table.Store.Complete.{is_stored, complete_row-HasUniqueKeys, complete_row-get}
use tricti.Table.Store.Stored.{store_values-cell}
use tricti.Table.Read.{get_row}
use tricti.Table.Read.Whole.{is_computed_named, get_row_total, get_row-get}
use tricti.Table.Calls.{with_row}
use tricti.Table.Filled.{IsFilled, Reached-IsFilled}
use tricti.Table.Steps.{Reached, call, insert}

module _ {Engine : Type 0} (t : TableRuntime Engine) where
  -- An insertion that ends well has written the completed row in the next place.
  abbrev Inserts :
      ℕ → HashMap String ColumnValue → TableRuntime Engine × Result TableError ℕ → Type 0
  Inserts id complete result =
      (now : HashMap String ColumnData) × (result ≡ (with_row t complete now, ok id))
      × (id ≡ t.next_row_id)
      × ((name : String) (v : ColumnValue)
          → get name complete ≡ some v
          → contains_key name t.storage.columns ≡ true
          → cell name id now ≡ some v)

  finish_insert_inv :
      (id : ℕ) (complete : HashMap String ColumnValue) (written : Written)
      → store_values t.next_row_id complete t.storage.columns ≡ written
      → HasUniqueKeys complete
      → (finish_insert complete t written).1 ≡ ok id
      → Inserts id complete (finish_insert complete t written)
  unfolding finish_insert
  finish_insert_inv id complete (now, err x) e unique made = cc
  finish_insert_inv id complete (now, ok tt) e unique made =
      let id_is : id ≡ t.next_row_id = ground (arith, made) in
      (
        now,
        ap (λ r. (with_row t complete now, ok r)) (sym id_is),
        id_is,
        λ name v given there.
            subst (λ r. cell name r now ≡ some v) (sym id_is)
              (ground (
                arith,
                store_values-cell t.next_row_id name complete t.storage.columns unique
                    (ap (λ w. w.1) e),
                given,
                there,
                ap (λ w. cell name t.next_row_id w.0) e,
              )),
      )

  unless_duplicate_inv :
      (id : ℕ) (complete : HashMap String ColumnValue) (x : TableError) (is_duplicate : Bool)
      → HasUniqueKeys complete
      → (if is_duplicate then (t, err x) else store_row complete t).1 ≡ ok id
      → Inserts id complete (if is_duplicate then (t, err x) else store_row complete t)
  unfolding store_row
  unless_duplicate_inv id complete x true unique made = cc
  unless_duplicate_inv id complete x false unique made =
      finish_insert_inv id complete _ refl unique made

  insert_keyed_inv :
      (id : ℕ) (complete : HashMap String ColumnValue) (key : Option ColumnValue)
      → HasUniqueKeys complete
      → (insert_keyed complete t key).1 ≡ ok id
      → Inserts id complete (insert_keyed complete t key)
  unfolding insert_keyed store_row
  insert_keyed_inv id complete none unique made = finish_insert_inv id complete _ refl unique made
  insert_keyed_inv id complete (some k) unique made =
      unless_duplicate_inv id complete (duplicate_primary_key k)
        (contains_key k t.primary_index.index) unique made

  insert_complete_inv :
      (id : ℕ) (row : TableRow) (made : Result TableError (HashMap String ColumnValue))
      → complete_row t.schema.columns row.values t.schema.columns [] ≡ made
      → (insert_complete t made).1 ≡ ok id
      → (complete : HashMap String ColumnValue) × (complete_row t.schema.columns row.values
            t.schema.columns []
          ≡ ok complete)
        × Inserts id complete (insert_complete t made)
  unfolding insert_complete
  insert_complete_inv id row (err x) e made = cc
  insert_complete_inv id row (ok complete) e made = (
    complete,
    e,
    insert_keyed_inv id complete _
        (complete_row-HasUniqueKeys t.schema.columns row.values t.schema.columns [] complete e tt)
        made,
  )

module _ {Engine : Type 0} ⦃lazy : LazyEvaluation Engine⦄ where
  is_missing-with_row :
      (t : TableRuntime Engine) (complete : HashMap String ColumnValue)
      (now : HashMap String ColumnData)
      → IsFilled t
      → is_missing t.next_row_id (with_row t complete now) ≡ false
  unfolding is_missing
  is_missing-with_row t complete now filled = ground (arith, filled.0 t.next_row_id)

  -- In every table that the calls make: a row whose insertion ends well can be read under the id
  -- that the insertion returned, and holds every value that was given for a column that is not
  -- computed.
  pub get_row-insert_row :
      {schema : TableDef} {t : TableRuntime Engine} (row : TableRow) (id : ℕ)
      → Reached schema t
      → (insert_row row t).1 ≡ ok id
      → (read : TableRow) × (get_row id (insert_row row t).0 ≡ ok read)
        × ((name : String) (v : ColumnValue)
            → is_stored name t.schema.columns ≡ true
            → is_computed_named name t.schema.columns ≡ false
            → get name row.values ≡ some v
            → get name read.values ≡ some v)
  unfolding insert_row
  get_row-insert_row {schema} {t} row id reached made =
      let (complete, whole, (now, result, id_is, writes)) =
        insert_complete_inv t id row _ refl made in
      let after : TableRuntime Engine = with_row t complete now in
      let table_is : (insert_row row t).0 ≡ after = ap (λ r. r.0) result in
      let filled : IsFilled after =
        subst IsFilled table_is (Reached-IsFilled (call reached (insert row))) in
      let there : is_missing id after ≡ false =
        subst (λ r. is_missing r after ≡ false) (sym id_is)
          (is_missing-with_row t complete now (Reached-IsFilled reached)) in
      let (read, is_read) = get_row_total after id filled there in
      (
        read,
        ap (get_row id) table_is ∙ is_read,
        λ name v stored clear given.
            get_row-get after id read name v is_read
              (writes name v
                (complete_row-get t.schema.columns row.values name v t.schema.columns [] complete
                  given whole (inr stored))
                ((Reached-IsFilled reached).2 name stored).0)
              stored clear,
      )
