-- ===== src/Table/Steps.antt =====
-- src/table_runtime.rs: the histories of a table, from a new one by the calls that change it.
use tricti.Base.{
  subst, sym, ℕ, ◌≡◌, refl, Bool-cases, Option, none, some, inl, inr, String, text_key, arith, any,
}
use tricti.Base.Result.{Result, ok, err}
use tricti.Base.HashMap.{HashMap, contains_key}
use tricti.Ast.{TableDef}
use tricti.Table.Value.{ColumnValue}
use tricti.Table.Schema.{is_computed_column}
use tricti.Table.State.{SecondaryIndex, TableRow, TableRuntime, LazyEvaluation}
use tricti.Table.Rows.{insert_row, update_row, delete_row}
use tricti.Table.Read.{
  new, new_with, new_computed, computed_value, get_column_value, mark_column_dirty, mark_row_dirty,
}
use tricti.Table.Calls.{IsKept, insert_row-keeps, update_row-keeps, delete_row-keeps}
use tricti.Table.Index.{add_secondary_index}

module _ {Engine : Type 0} ⦃lazy : LazyEvaluation Engine⦄ where
  -- One call, whatever its result.
  pub data Step (t : TableRuntime Engine) : TableRuntime Engine → Type 0 where
    insert : (row : TableRow) → Step t (insert_row row t).0
    update :
        (row_id : ℕ) (updates : HashMap String ColumnValue) → Step t (update_row row_id updates t).0
    delete : (row_id : ℕ) → Step t (delete_row row_id t).0
    index : (column_name : String) → Step t (add_secondary_index column_name t)
    read : (row_id : ℕ) (column_name : String) → Step t (get_column_value row_id column_name t).0
    dirty_column : (column_name : String) → Step t (mark_column_dirty column_name t)
    dirty_row : (column_name : String) (row_id : ℕ) → Step t (mark_row_dirty column_name row_id t)

  pub data Reached (schema : TableDef) : TableRuntime Engine → Type 0 where
    start : {t : TableRuntime Engine} → new schema ≡ ok t → Reached schema t
    call : {t u : TableRuntime Engine} → Reached schema t → Step t u → Reached schema u

module _ {Engine : Type 0} ⦃lazy : LazyEvaluation Engine⦄ where
  -- The other calls change the secondary indexes and the engine, and nothing else.
  abbrev pub Kept : TableRuntime Engine → TableRuntime Engine → Type 0
  Kept t u =
      (indexes : HashMap String SecondaryIndex) × (engine : Option Engine) × (u
        ≡ record t { secondary_indexes = indexes; computed_engine = engine })

  add_secondary_index-Kept :
      (name : String) (t : TableRuntime Engine) → Kept t (add_secondary_index name t)
  unfolding add_secondary_index
  add_secondary_index-Kept name t = elim (Bool-cases (contains_key name t.secondary_indexes)) [
    | inl e ↦ rw e (t.secondary_indexes, t.computed_engine, refl)
    | inr e ↦ rw e (_, t.computed_engine, refl)
  ]

  computed_value-Kept :
      (id : ℕ) (name : String) (t : TableRuntime Engine) (engine : Option Engine)
      → Kept t (computed_value id name t engine).0
  unfolding computed_value
  computed_value-Kept id name t none = (t.secondary_indexes, t.computed_engine, refl)
  computed_value-Kept id name t (some engine) = (t.secondary_indexes, _, refl)

  get_column_value-Kept :
      (id : ℕ) (name : String) (t : TableRuntime Engine) → Kept t (get_column_value id name t).0
  unfolding get_column_value
  get_column_value-Kept id name t = elim (Bool-cases (is_computed_column t.schema.columns name)) [
    | inl e ↦ rw e (computed_value-Kept id name t t.computed_engine)
    | inr e ↦ rw e (t.secondary_indexes, t.computed_engine, refl)
  ]

  mark_column_dirty-Kept :
      (name : String) (t : TableRuntime Engine) → Kept t (mark_column_dirty name t)
  unfolding mark_column_dirty
  mark_column_dirty-Kept name t = (t.secondary_indexes, _, refl)

  mark_row_dirty-Kept :
      (name : String) (id : ℕ) (t : TableRuntime Engine) → Kept t (mark_row_dirty name id t)
  unfolding mark_row_dirty
  mark_row_dirty-Kept name id t = (t.secondary_indexes, _, refl)

  -- What insertions, updates and deletions keep, and what does not depend on the secondary indexes
  -- and the engine, every call keeps.
  Step-keeps :
      (P : TableRuntime Engine → Type 0)
      → ((row : TableRow) (t : TableRuntime Engine) → P t → P (insert_row row t).0)
      → ((id : ℕ) (updates : HashMap String ColumnValue) (t : TableRuntime Engine)
          → P t
          → P (update_row id updates t).0)
      → ((id : ℕ) (t : TableRuntime Engine) → P t → P (delete_row id t).0)
      → ((t u : TableRuntime Engine) → Kept t u → P t → P u)
      → {t u : TableRuntime Engine} → Step t u
      → P t
      → P u
  Step-keeps P inserted updated deleted kept {t} (insert row) h = inserted row t h
  Step-keeps P inserted updated deleted kept {t} (update id updates) h = updated id updates t h
  Step-keeps P inserted updated deleted kept {t} (delete id) h = deleted id t h
  Step-keeps P inserted updated deleted kept {t} (index name) h =
      kept t _ (add_secondary_index-Kept name t) h
  Step-keeps P inserted updated deleted kept {t} (read id name) h =
      kept t _ (get_column_value-Kept id name t) h
  Step-keeps P inserted updated deleted kept {t} (dirty_column name) h =
      kept t _ (mark_column_dirty-Kept name t) h
  Step-keeps P inserted updated deleted kept {t} (dirty_row name id) h =
      kept t _ (mark_row_dirty-Kept name id t) h

  new_computed_inv :
      (schema : TableDef) (built : Result String Engine) (t : TableRuntime Engine)
      → new_computed schema built ≡ ok t
      → (engine : Option Engine) × (t ≡ new_with schema engine)
  unfolding new_computed
  new_computed_inv schema (ok engine) t e = (some engine, ground (arith, e))
  new_computed_inv schema (err x) t e = cc

  -- A new table is the empty one, with or without an engine.
  new_inv :
      (schema : TableDef) (t : TableRuntime Engine)
      → new schema ≡ ok t
      → (engine : Option Engine) × (t ≡ new_with schema engine)
  unfolding new
  new_inv schema t e = elim (Bool-cases (any (λ column. column.is_computed) schema.columns)) [
    | inl h ↦ new_computed_inv schema (lazy.build_engine schema) t (ground (arith, e, h))
    | inr h ↦ (none, ground (arith, e, h))
  ]

  -- An invariant of the new table, that every change of rows keeps and that does not depend on the
  -- secondary indexes and the engine, holds in every history.
  pub Reached-keeps :
      (P : TableRuntime Engine → Type 0) {schema : TableDef} {t : TableRuntime Engine}
      → IsKept P
      → ((t u : TableRuntime Engine) → Kept t u → P t → P u)
      → ((engine : Option Engine) → P (new_with schema engine))
      → Reached schema t
      → P t
  Reached-keeps P {schema} {t} kept frame first (start e) =
      let (engine, made) = new_inv schema t e in subst P (sym made) (first engine)
  Reached-keeps P kept frame first (call reached step) =
      Step-keeps P (insert_row-keeps kept) (update_row-keeps kept) (delete_row-keeps kept) frame
        step (Reached-keeps P kept frame first reached)
