-- ===== src/Table/Calls.antt =====
-- src/table_runtime.rs: what each call that changes rows does to a table, so that an invariant is
-- shown once for each kind of change.
use tricti.Base.{
  ℕ, ◌+◌, ◌-◌, ◌≡◌, ◌≢◌, refl, ap, subst, Bool, true, false, not, ◌||◌, Option, none, some, List,
  [], String, text_key, number_key, leb, arith, Bool-cases, inl, inr,
}
use tricti.Base.Result.{Result, ok, err}
use tricti.Base.HashMap
use tricti.Base.HashMap.{
  HashMap, get, contains_key, contains_key-some, contains_key-none, HasUniqueKeys,
}
use tricti.Base.HashSet
use tricti.Base.HashSet.{contains}
use tricti.Table.Value.{ColumnValue, value_key}
use tricti.Table.Error.{TableError}
use tricti.Table.Column.{ColumnData, mark_deleted}
use tricti.Table.State.{TableRow, TableRuntime}
use tricti.Table.Rows.{
  is_missing, finish_insert, store_row, insert_keyed, insert_complete, insert_row, delete_row,
  write_updates, update_keyed, update_row,
}
use tricti.Table.Store.{
  cell, key_value, index_key, unindex_key, stored_key, complete_row, store_values, Written,
}
use tricti.Table.Store.Complete.{is_stored, complete_row-HasUniqueKeys, complete_row-is_stored}
use tricti.Table.Store.Stored.{
  store_values-cell, store_values-cell_other, store_values-contains_key,
}
use tricti.Table.Store.Updated.{
  apply_updates-cell_kept, apply_updates-cell_other, apply_updates-cell-some,
  apply_updates-contains_key,
}

abbrev pub live : (deleted_rows : List ℕ) (next_row_id : ℕ) → ℕ → Bool
live deleted_rows next_row_id r = not (contains deleted_rows r || leb next_row_id r)

module _ {Engine : Type 0} where
  abbrev pub is_live : TableRuntime Engine → ℕ → Bool
  is_live t r = live t.deleted_rows t.next_row_id r

  pub is_live-is_missing :
      (t : TableRuntime Engine) (r : ℕ) → is_missing r t ≡ false → is_live t r ≡ true
  unfolding is_missing
  is_live-is_missing t r h = ground (arith, h)

  -- The columns are the same, and only the place of one row has changed.
  abbrev pub SameButRow : (id : ℕ) → TableRuntime Engine → HashMap String ColumnData → Type 0
  SameButRow id t now =
      ((name : String) → contains_key name now ≡ contains_key name t.storage.columns)
      × ((name : String) (r : ℕ) → id ≢ r → cell name r now ≡ cell name r t.storage.columns)

  -- A row with a value for every stored column is written in the next place, under a key that the
  -- index does not have.
  abbrev pub StoresRow :
      TableRuntime Engine → HashMap String ColumnValue → HashMap String ColumnData → Type 0
  StoresRow t complete now =
      ((name : String)
        → is_stored name t.schema.columns ≡ true
        → (v : ColumnValue) × (get name complete ≡ some v))
      × ((k : ColumnValue)
          → key_value t.primary_index.column_name complete ≡ some k
          → get k t.primary_index.index ≡ none)
      × ((name : String) (v : ColumnValue)
          → get name complete ≡ some v
          → contains_key name t.storage.columns ≡ true
          → cell name t.next_row_id now ≡ some v)

  -- The key of no row changes, and no value goes.
  abbrev pub UpdatesRow : TableRuntime Engine → HashMap String ColumnData → Type 0
  UpdatesRow t now =
      ((name : String)
        → t.primary_index.column_name ≡ some name
        → (r : ℕ) → cell name r now ≡ cell name r t.storage.columns)
      × ((name : String) (r : ℕ) (v : ColumnValue)
          → cell name r t.storage.columns ≡ some v
          → (w : ColumnValue) × (cell name r now ≡ some w))

  abbrev pub with_columns : TableRuntime Engine → HashMap String ColumnData → TableRuntime Engine
  with_columns t now = record t { storage = record { columns = now } }

  abbrev pub with_row :
      TableRuntime Engine
      → HashMap String ColumnValue
      → HashMap String ColumnData
      → TableRuntime Engine
  with_row t complete now = record t {
    storage = record { columns = now };
    primary_index = record t.primary_index {
      index =
          index_key t.next_row_id (key_value t.primary_index.column_name complete)
            t.primary_index.index;
    };
    row_count = t.row_count + 1;
    next_row_id = t.next_row_id + 1;
  }

  abbrev pub without_row : ℕ → TableRuntime Engine → TableRuntime Engine
  without_row id t = record t {
    primary_index = record t.primary_index {
      index =
          unindex_key (stored_key t.primary_index.column_name t.storage.columns id)
            t.primary_index.index;
    };
    storage = record { columns = HashMap.map_values (mark_deleted id) t.storage.columns };
    deleted_rows = HashSet.insert id t.deleted_rows;
    row_count = t.row_count - 1;
  }

  -- An invariant, and what it is to show of it.
  pub record IsKept (P : TableRuntime Engine → Type 0) : Type 0 where
    pub failed :
        (t : TableRuntime Engine) (now : HashMap String ColumnData)
        → SameButRow t.next_row_id t now
        → P t
        → P (with_columns t now)
    pub stored :
        (t : TableRuntime Engine) (complete : HashMap String ColumnValue)
        (now : HashMap String ColumnData)
        → SameButRow t.next_row_id t now
        → StoresRow t complete now
        → P t
        → P (with_row t complete now)
    pub updated :
        (id : ℕ) (t : TableRuntime Engine) (now : HashMap String ColumnData)
        → SameButRow id t now
        → UpdatesRow t now
        → P t
        → P (with_columns t now)
    pub deleted :
        (id : ℕ) (t : TableRuntime Engine) → is_live t id ≡ true → P t → P (without_row id t)

module _ {Engine : Type 0} {P : TableRuntime Engine → Type 0} (kept : IsKept P) where
  store_values-SameButRow :
      (complete : HashMap String ColumnValue) (t : TableRuntime Engine)
      → SameButRow t.next_row_id t (store_values t.next_row_id complete t.storage.columns).0
  store_values-SameButRow complete t = (
    λ name. store_values-contains_key t.next_row_id name complete t.storage.columns,
    λ name r apart. store_values-cell_other t.next_row_id r name complete t.storage.columns apart,
  )

  finish_insert-keeps :
      (complete : HashMap String ColumnValue) (t : TableRuntime Engine) (written : Written)
      → store_values t.next_row_id complete t.storage.columns ≡ written
      → HasUniqueKeys complete
      → ((name : String)
          → is_stored name t.schema.columns ≡ true
          → contains_key name complete ≡ true)
      → ((k : ColumnValue)
          → key_value t.primary_index.column_name complete ≡ some k
          → get k t.primary_index.index ≡ none)
      → P t
      → P (finish_insert complete t written).0
  unfolding finish_insert
  finish_insert-keeps complete t (now, err x) e unique has free h =
      kept.failed t now
        (subst (λ w. SameButRow t.next_row_id t w.0) e (store_values-SameButRow complete t)) h
  finish_insert-keeps complete t (now, ok tt) e unique has free h =
      kept.stored t complete now
        (subst (λ w. SameButRow t.next_row_id t w.0) e (store_values-SameButRow complete t))
        (
          λ name stored. contains_key-some name complete (has name stored),
          free,
          λ name v given there. ground (
            arith,
            store_values-cell t.next_row_id name complete t.storage.columns unique
                (ap (λ w. w.1) e),
            given,
            there,
            ap (λ w. cell name t.next_row_id w.0) e,
          ),
        )
        h

  insert_keyed-keeps :
      (complete : HashMap String ColumnValue) (t : TableRuntime Engine) (key : Option ColumnValue)
      → key_value t.primary_index.column_name complete ≡ key
      → HasUniqueKeys complete
      → ((name : String)
          → is_stored name t.schema.columns ≡ true
          → contains_key name complete ≡ true)
      → P t
      → P (insert_keyed complete t key).0
  unfolding insert_keyed store_row
  insert_keyed-keeps complete t none e unique has h =
      finish_insert-keeps complete t _ refl unique has (λ k same. ground (arith, same, e)) h
  insert_keyed-keeps complete t (some k) e unique has h =
      elim (Bool-cases (contains_key k t.primary_index.index)) [
        | inl there ↦ rw there h
        | inr free ↦ rw free (
            finish_insert-keeps complete t _ refl unique has
              (λ j same.
                subst (λ x. get x t.primary_index.index ≡ none) (ground (arith, e, same))
                  (contains_key-none k t.primary_index.index free))
              h)
      ]

  pub insert_row-keeps : (row : TableRow) (t : TableRuntime Engine) → P t → P (insert_row row t).0
  unfolding insert_row
  insert_row-keeps row t h =
      step (complete_row t.schema.columns row.values t.schema.columns []) refl
    where
      step :
          (made : Result TableError (HashMap String ColumnValue))
          → complete_row t.schema.columns row.values t.schema.columns [] ≡ made
          → P (insert_complete t made).0
      step (err x) e = h
      step (ok complete) e =
          insert_keyed-keeps complete t _ refl
            (complete_row-HasUniqueKeys t.schema.columns row.values t.schema.columns [] complete e
              tt)
            (λ name.
              complete_row-is_stored t.schema.columns row.values name t.schema.columns [] complete
                e)
            h

  pub delete_row-keeps : (id : ℕ) (t : TableRuntime Engine) → P t → P (delete_row id t).0
  unfolding delete_row is_missing
  delete_row-keeps id t h = elim (Bool-cases (is_missing id t)) [
    | inl e ↦ rw e h
    | inr e ↦ rw e (kept.deleted id t (ground (arith, e)) h)
  ]

  write_updates-keeps :
      (id : ℕ) (updates : HashMap String ColumnValue) (t : TableRuntime Engine)
      → ((name : String)
          → t.primary_index.column_name ≡ some name
          → contains_key name updates ≡ false)
      → P t
      → P (write_updates id updates t).0
  unfolding write_updates
  write_updates-keeps id updates t no_key h =
      let columns = t.storage.columns in
      let schema = t.schema.columns in
      kept.updated id t _
        (
          λ name. apply_updates-contains_key schema id updates columns name,
          λ name r apart. apply_updates-cell_other schema id updates columns name r apart,
        )
        (
          λ name e r. apply_updates-cell_kept schema id updates columns name r (no_key name e),
          λ name r v e. apply_updates-cell-some schema id updates columns name r e,
        )
        h

  update_keyed-keeps :
      (id : ℕ) (updates : HashMap String ColumnValue) (t : TableRuntime Engine) (pk : Option String)
      → t.primary_index.column_name ≡ pk
      → P t
      → P (update_keyed id updates t pk).0
  unfolding update_keyed
  update_keyed-keeps id updates t none e h =
      write_updates-keeps id updates t (λ name k. ground (arith, k, e)) h
  update_keyed-keeps id updates t (some pk) e h = elim (Bool-cases (contains_key pk updates)) [
    | inl there ↦ rw there h
    | inr absent ↦ rw absent (
        write_updates-keeps id updates t
          (λ name k. subst (λ n. contains_key n updates ≡ false) (ground (arith, e, k)) absent) h)
  ]

  pub update_row-keeps :
      (id : ℕ) (updates : HashMap String ColumnValue) (t : TableRuntime Engine)
      → P t
      → P (update_row id updates t).0
  unfolding update_row
  update_row-keeps id updates t h = elim (Bool-cases (is_missing id t)) [
    | inl e ↦ rw e h
    | inr e ↦ rw e (update_keyed-keeps id updates t t.primary_index.column_name refl h)
  ]
