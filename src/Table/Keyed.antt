-- ===== src/Table/Keyed.antt =====
-- src/table_runtime.rs: the primary index against the storage.
pub mod Tables
pub mod Reached
use tricti.Base.{
  ℕ, suc, ◌+◌, ◌-◌, ◌<◌, ◌≡◌, ◌≢◌, refl, sym, ap, ◌∙◌, Bool, true, false, not, ◌&&◌, ◌||◌, Option,
  none, some, List, [], ◌∷◌, String, ◌==◌, ==_iff, ==_refl, text_key, number_key, if◌then◌else◌,
  nat_beq, nat_beq_iff, leb, arith, Bool-cases, Option-cases, inl, inr, eq_iff, subst, any,
}
use tricti.Base.Result.{Result, ok, err, Result-cases, ◌>>=◌, ◌>>◌, >>=_ok_inv}
use tricti.Base.HashMap
use tricti.Base.HashMap.{
  HashMap, get, contains_key, get-insert, get-remove, HasUniqueKeys, insert-HasUniqueKeys,
}
use tricti.Base.HashSet
use tricti.Base.HashSet.{contains, contains-insert}
use tricti.Ast.{TableColumn, TableDef}
use tricti.Table.Value.{ColumnValue, value_key}
use tricti.Table.Error.{TableError}
use tricti.Table.Column.{ColumnData, mark_deleted}
use tricti.Table.Schema.{validate_column_value, evaluate_default_expression}
use tricti.Table.State.{PrimaryKeyIndex, ColumnarStorage, TableRow, TableRuntime, LazyEvaluation}
use tricti.Table.Rows.{is_missing}
use tricti.Table.Store.{
  cell, stored_key, key_value, index_key, unindex_key, complete_row, store_values, apply_updates,
}
use tricti.Table.Store.Stored.{
  store_values-cell, store_values-cell_other, store_values-contains_key, cell-mark_deleted,
}
use tricti.Table.Store.Updated.{apply_updates-cell_kept, apply_updates-contains_key}

-- The index leads from a key just to the live row that is stored under it.
module _ (live : ℕ → Bool) (stored : ℕ → Option ColumnValue) (index : HashMap ColumnValue ℕ) where
  abbrev pub Agrees : Type 0
  Agrees =
      ((k : ColumnValue) (r : ℕ) → get k index ≡ some r → (live r ≡ true) × (stored r ≡ some k))
      × ((k : ColumnValue) (r : ℕ) → live r ≡ true → stored r ≡ some k → get k index ≡ some r)

module _ (live now_live : ℕ → Bool) (stored now_stored : ℕ → Option ColumnValue)
    (index : HashMap ColumnValue ℕ) (known : Agrees live stored index) where
  pub Agrees_same :
      ((r : ℕ) → now_live r ≡ live r)
      → ((r : ℕ) → live r ≡ true → now_stored r ≡ stored r)
      → Agrees now_live now_stored index
  Agrees_same same_live same_stored = (
    λ k r found.
        let at_key = known.0 k r found in
        (same_live r ∙ at_key.0, same_stored r at_key.0 ∙ at_key.1),
    λ k r alive here.
        let was : live r ≡ true = sym (same_live r) ∙ alive in
        known.1 k r was (sym (same_stored r was) ∙ here),
  )

  -- A row that was not there is stored under a key that the index does not have.
  pub Agrees_insert :
      (id : ℕ) (key : ColumnValue)
      → live id ≡ false
      → get key index ≡ none
      → ((r : ℕ) → now_live r ≡ (live r || nat_beq id r))
      → now_stored id ≡ some key
      → ((r : ℕ) → id ≢ r → now_stored r ≡ stored r)
      → Agrees now_live now_stored (HashMap.insert key id index)
  Agrees_insert id key fresh free lives here others = (
    λ k r found. elim (Bool-cases (nat_beq id r)) [
      | inl same ↦
          subst (λ j. (now_live j ≡ true) × (now_stored j ≡ some k)) ((nat_beq_iff id r).0 same)
            (
              ground (arith, lives id),
              here ∙ ap some (key_of k r found ((nat_beq_iff id r).0 same)),
            )
      | inr other ↦
          let old =
            known.0 k r
              (ground (arith, found, get-insert key k id index, nat_beq_iff id r, other)) in
          (
            ground (arith, lives r, old.0),
            others r (λ e. ground (arith, nat_beq_iff id r, other, e)) ∙ old.1,
          )
    ],
    λ k r alive stored_here. elim (Bool-cases (nat_beq id r)) [
      | inl same ↦
          let e = (nat_beq_iff id r).0 same in
          ground (
            arith,
            get-insert key k id index,
            ==_iff key k,
            sym here ∙ ap now_stored e ∙ stored_here,
            e,
          )
      | inr other ↦
          let apart : id ≢ r = λ e. ground (arith, nat_beq_iff id r, other, e) in
          ground (
            arith,
            get-insert key k id index,
            ==_iff key k,
            known.1 k r (ground (arith, lives r, alive, other))
                (sym (others r apart) ∙ stored_here),
            free,
            ap (λ x. get x index) {x = key} {y = k},
          )
    ],
  )
    where
      key_of :
          (k : ColumnValue) (r : ℕ)
          → get k (HashMap.insert key id index) ≡ some r
          → id ≡ r
          → key ≡ k
      key_of k r found same = elim (Bool-cases (key == k)) [
        | inl e ↦ (==_iff key k).0 e
        | inr e ↦ absurd (
            ground (
              arith,
              fresh,
              ap live same,
              (known.0 k r (ground (arith, found, get-insert key k id index, e))).0,
            ))
      ]

  -- A live row is taken out, and its key with it.
  pub Agrees_remove :
      (id : ℕ) (key : ColumnValue)
      → live id ≡ true
      → stored id ≡ some key
      → ((r : ℕ) → now_live r ≡ (live r && not (nat_beq id r)))
      → ((r : ℕ) → id ≢ r → now_stored r ≡ stored r)
      → Agrees now_live now_stored (HashMap.remove key index)
  Agrees_remove id key alive here lives others = (
    λ k r found.
        let kept : (key == k) ≡ false = ground (arith, found, get-remove key k index) in
        let old = known.0 k r (ground (arith, found, get-remove key k index)) in
        let apart : id ≢ r =
          λ e. ground (arith, kept, ==_iff key k, sym here ∙ ap stored e ∙ old.1) in
        (ground (arith, lives r, old.0, nat_beq_iff id r, apart), others r apart ∙ old.1),
    λ k r still stored_here.
        let apart : id ≢ r = λ e. ground (arith, nat_beq_iff id r, e, lives r, still) in
        let at_key =
          known.1 k r (ground (arith, lives r, still)) (sym (others r apart) ∙ stored_here) in
        ground (
          arith,
          get-remove key k index,
          ==_iff key k,
          at_key,
          known.1 key id alive here,
          ap (λ x. get x index) {x = key} {y = k},
          apart,
        ),
  )

  -- A live row that is stored under no key is taken out.
  pub Agrees_forget :
      (id : ℕ)
      → stored id ≡ none
      → ((r : ℕ) → now_live r ≡ (live r && not (nat_beq id r)))
      → ((r : ℕ) → id ≢ r → now_stored r ≡ stored r)
      → Agrees now_live now_stored index
  Agrees_forget id here lives others = (
    λ k r found.
        let old = known.0 k r found in
        let apart : id ≢ r = λ e. ground (arith, sym here ∙ ap stored e ∙ old.1) in
        (ground (arith, lives r, old.0, nat_beq_iff id r, apart), others r apart ∙ old.1),
    λ k r still stored_here.
        let apart : id ≢ r = λ e. ground (arith, nat_beq_iff id r, e, lives r, still) in
        known.1 k r (ground (arith, lives r, still)) (sym (others r apart) ∙ stored_here),
  )
