-- ===== src/Table/Keyed/Tables.antt =====
-- src/table_runtime.rs: the primary index is right in every table that the calls make.
use tricti.Base.{
  ℕ, ◌+◌, ◌<◌, ◌≡◌, ◌≢◌, refl, sym, ◌∙◌, true, not, ◌&&◌, ◌||◌, Option, none, some, List, String,
  text_key, number_key, nat_beq, nat_beq_iff, arith, subst,
}
use tricti.Base.HashMap
use tricti.Base.HashMap.{HashMap, get, contains_key, HasUniqueKeys}
use tricti.Base.HashSet
use tricti.Base.HashSet.{contains, contains-insert}
use tricti.Ast.{TableColumn}
use tricti.Table.Value.{ColumnValue, value_key}
use tricti.Table.Column.{ColumnData, mark_deleted}
use tricti.Table.Store.{cell, stored_key, key_value, index_key, unindex_key}
use tricti.Table.Store.Complete.{is_stored}
use tricti.Table.Store.Stored.{cell-mark_deleted, contains_key-mark_deleted}
use tricti.Table.Calls.{live}
use tricti.Table.Keyed.{Agrees, Agrees_same, Agrees_insert, Agrees_remove, Agrees_forget}

-- The invariant by its parts: the name of the primary key, the declared columns, the storage, the
-- deleted rows, the number of the next row and the index.
module _ (pk : Option String) (schema : List TableColumn) where
  -- A primary key is a column that is declared, not computed, and has storage; what is deleted was
  -- a row; and the index agrees with the storage.
  abbrev pub IsKeyed : HashMap String ColumnData → List ℕ → ℕ → HashMap ColumnValue ℕ → Type 0
  IsKeyed columns deleted_rows next_row_id index =
      ((name : String)
        → pk ≡ some name
        → (is_stored name schema ≡ true) × (contains_key name columns ≡ true))
      × ((r : ℕ) → contains deleted_rows r ≡ true → r < next_row_id)
      × Agrees (live deleted_rows next_row_id) (stored_key pk columns) index

stored_key_same :
    (pk : Option String) (columns now : HashMap String ColumnData) (r : ℕ)
    → ((name : String) → cell name r now ≡ cell name r columns)
    → stored_key pk now r ≡ stored_key pk columns r
unfolding stored_key
stored_key_same none columns now r same = refl
stored_key_same (some name) columns now r same = same name

pub live_next :
    (deleted_rows : List ℕ) (next_row_id r : ℕ)
    → ((r : ℕ) → contains deleted_rows r ≡ true → r < next_row_id)
    → live deleted_rows (next_row_id + 1) r
      ≡ (live deleted_rows next_row_id r || nat_beq next_row_id r)
live_next deleted_rows next_row_id r below = ground (arith, below r)

module _ (schema : List TableColumn) (columns now : HashMap String ColumnData)
    (deleted_rows : List ℕ) (next_row_id : ℕ) (index : HashMap ColumnValue ℕ)
    (others : (name : String) (r : ℕ) → next_row_id ≢ r → cell name r now ≡ cell name r columns)
    (names : (name : String) → contains_key name now ≡ contains_key name columns) where
  -- An insertion that failed while it wrote has changed nothing but the place of the next row.
  pub failed-IsKeyed :
      (pk : Option String)
      → IsKeyed pk schema columns deleted_rows next_row_id index
      → IsKeyed pk schema now deleted_rows next_row_id index
  failed-IsKeyed pk keyed = (
    λ name h. ((keyed.0 name h).0, names name ∙ (keyed.0 name h).1),
    keyed.1,
    Agrees_same _ _ _ (stored_key pk now) index keyed.2 (λ r. refl)
        (λ r alive.
          stored_key_same pk columns now r (λ name. others name r (λ e. ground (arith, alive, e)))),
  )

  pub stored-IsKeyed :
      (complete : HashMap String ColumnValue) (pk : Option String)
      → IsKeyed pk schema columns deleted_rows next_row_id index
      → ((k : ColumnValue) → key_value pk complete ≡ some k → get k index ≡ none)
      → ((name : String)
          → is_stored name schema ≡ true
          → (v : ColumnValue) × (get name complete ≡ some v))
      → ((name : String) (v : ColumnValue)
          → get name complete ≡ some v
          → contains_key name columns ≡ true
          → cell name next_row_id now ≡ some v)
      → IsKeyed pk schema now deleted_rows
          (next_row_id + 1)
          (index_key next_row_id (key_value pk complete) index)
  unfolding key_value index_key stored_key
  stored-IsKeyed complete none keyed free has writes = (
    λ name h. cc,
    (λ r gone. omega (arith, keyed.1 r gone)),
    (λ k r found. absurd (ground (arith, (keyed.2.0 k r found).1)), λ k r alive here. cc),
  )
  stored-IsKeyed complete (some name) keyed free has writes =
      let stored = keyed.0 name refl in
      let given = has name stored.0 in
      (
        λ n h. ((keyed.0 n h).0, names n ∙ (keyed.0 n h).1),
        λ r gone. omega (arith, keyed.1 r gone),
        subst
            (λ key.
              Agrees (live deleted_rows (next_row_id + 1)) (λ r. cell name r now)
                (index_key next_row_id key index))
            (sym given.1)
            (Agrees_insert (live deleted_rows next_row_id) _ (λ r. cell name r columns)
              (λ r. cell name r now) index keyed.2 next_row_id given.0 (ground arith)
              (free given.0 given.1) (λ r. live_next deleted_rows next_row_id r keyed.1)
              (writes name given.0 given.1 stored.1) (others name)),
      )

-- The updates of a row do not change its key.
pub updated-IsKeyed :
    (pk : Option String) (schema : List TableColumn) (columns now : HashMap String ColumnData)
    (deleted_rows : List ℕ) (next_row_id : ℕ) (index : HashMap ColumnValue ℕ)
    → IsKeyed pk schema columns deleted_rows next_row_id index
    → ((name : String) → contains_key name now ≡ contains_key name columns)
    → ((name : String) → pk ≡ some name → (r : ℕ) → cell name r now ≡ cell name r columns)
    → IsKeyed pk schema now deleted_rows next_row_id index
unfolding stored_key
updated-IsKeyed none schema columns now deleted_rows next_row_id index keyed names kept =
    (λ name h. cc, keyed.1, keyed.2)
updated-IsKeyed (some pk) schema columns now deleted_rows next_row_id index keyed names kept = (
  λ name h. ((keyed.0 name h).0, names name ∙ (keyed.0 name h).1),
  keyed.1,
  Agrees_same _ _ _ (λ r. cell pk r now) index keyed.2 (λ r. refl) (λ r alive. kept pk refl r),
)

pub live_deleted :
    (deleted_rows : List ℕ) (next_row_id id r : ℕ)
    → live (HashSet.insert id deleted_rows) next_row_id r
      ≡ (live deleted_rows next_row_id r && not (nat_beq id r))
live_deleted deleted_rows next_row_id id r = ground (arith, contains-insert deleted_rows id r)

pub other_cells :
    (id : ℕ) (name : String) (columns : HashMap String ColumnData) (r : ℕ)
    → id ≢ r
    → cell name r (HashMap.map_values (mark_deleted id) columns) ≡ cell name r columns
other_cells id name columns r apart =
    ground (arith, cell-mark_deleted id r name columns, nat_beq_iff id r, apart)

deleted_Agrees :
    (name : String) (columns : HashMap String ColumnData) (deleted_rows : List ℕ) (next_row_id : ℕ)
    (index : HashMap ColumnValue ℕ) (id : ℕ) (key : Option ColumnValue)
    → cell name id columns ≡ key
    → live deleted_rows next_row_id id ≡ true
    → Agrees (live deleted_rows next_row_id) (λ r. cell name r columns) index
    → Agrees
        (live (HashSet.insert id deleted_rows) next_row_id)
        (λ r. cell name r (HashMap.map_values (mark_deleted id) columns))
        (unindex_key key index)
unfolding unindex_key
deleted_Agrees name columns deleted_rows next_row_id index id none here alive known =
    Agrees_forget _ _ _ _ index known id here (live_deleted deleted_rows next_row_id id)
      (other_cells id name columns)
deleted_Agrees name columns deleted_rows next_row_id index id (some k) here alive known =
    Agrees_remove _ _ _ _ index known id k alive here (live_deleted deleted_rows next_row_id id)
      (other_cells id name columns)

-- A row that is deleted loses its key.
pub deleted-IsKeyed :
    (pk : Option String) (schema : List TableColumn) (columns : HashMap String ColumnData)
    (deleted_rows : List ℕ) (next_row_id : ℕ) (index : HashMap ColumnValue ℕ) (id : ℕ)
    → live deleted_rows next_row_id id ≡ true
    → IsKeyed pk schema columns deleted_rows next_row_id index
    → IsKeyed pk schema
        (HashMap.map_values (mark_deleted id) columns)
        (HashSet.insert id deleted_rows)
        next_row_id
        (unindex_key (stored_key pk columns id) index)
unfolding stored_key unindex_key
deleted-IsKeyed pk schema columns deleted_rows next_row_id index id alive keyed = (
  λ name h. ((keyed.0 name h).0, contains_key-mark_deleted id name columns ∙ (keyed.0 name h).1),
  λ r gone.
      ground (arith, gone, keyed.1 r, contains-insert deleted_rows id r, alive, nat_beq_iff id r),
  agrees pk keyed.2,
)
  where
    agrees :
        (pk : Option String)
        → Agrees (live deleted_rows next_row_id) (stored_key pk columns) index
        → Agrees
            (live (HashSet.insert id deleted_rows) next_row_id)
            (stored_key pk (HashMap.map_values (mark_deleted id) columns))
            (unindex_key (stored_key pk columns id) index)
    agrees none known =
        Agrees_forget _ _ _ _ index known id refl (live_deleted deleted_rows next_row_id id)
          (λ r apart. refl)
    agrees (some name) known =
        deleted_Agrees name columns deleted_rows next_row_id index id (cell name id columns) refl
          alive known
