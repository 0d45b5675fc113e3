-- ===== src/Table/Store/Complete.antt =====
-- src/table_runtime.rs: the row that an insertion stores.
use tricti.Base.{
  some, ◌⊎◌, ==_iff, sym, ◌≡◌, Bool, true, false, not, ◌&&◌, ◌||◌, List, [], ◌∷◌, String, ◌==◌,
  text_key, arith, Bool-cases, inl, inr, subst,
}
use tricti.Base.Result.{Result-cases, ok, >>=_ok_inv}
use tricti.Base.HashMap
use tricti.Base.HashMap.{
  HashMap, get, contains_key, get-insert, HasUniqueKeys, insert-HasUniqueKeys,
}
use tricti.Ast.{TableColumn}
use tricti.Table.Value.{ColumnValue}
use tricti.Table.Schema.{validate_column_value}
use tricti.Table.Store.{column_value, complete_row}

-- A column of that name is not computed.
unfoldable pub is_stored : String → List TableColumn → Bool
is_stored name [] = false
is_stored name (column ∷ columns) =
    column.name == name && not column.is_computed || is_stored name columns

pub has_inserted {ℓ} :
    {V : Type ℓ} (new name : String) (v : V) (row : HashMap String V)
    → (new == name) ≡ true
    → contains_key name (HashMap.insert new v row) ≡ true
unfolding contains_key
has_inserted new name v row same = ground (arith, get-insert new name v row, same)

module _ (schema : List TableColumn) (values : HashMap String ColumnValue) where
  complete_row_stored :
      (column : TableColumn) (columns : List TableColumn)
      (row complete : HashMap String ColumnValue)
      → column.is_computed ≡ false
      → complete_row schema values (column ∷ columns) row ≡ ok complete
      → (v : ColumnValue) × (complete_row schema values columns (HashMap.insert column.name v row)
          ≡ ok complete)
  unfolding complete_row
  complete_row_stored column columns row complete e made =
      let parts =
        >>=_ok_inv (λ v. complete_row schema values columns (HashMap.insert column.name v row))
          (column_value schema values column) (ground (arith, made, e)) in
      (parts.0, parts.2)

  -- What each value keeps, the whole row keeps.
  complete_row-keeps :
      (P : HashMap String ColumnValue → Type 0) (columns : List TableColumn)
      (row complete : HashMap String ColumnValue)
      → complete_row schema values columns row ≡ ok complete
      → ((column : TableColumn) (v : ColumnValue) (now : HashMap String ColumnValue)
          → P now
          → P (HashMap.insert column.name v now))
      → P row
      → P complete
  unfolding complete_row
  complete_row-keeps P [] row complete made step h = subst P (ground (arith, made)) h
  complete_row-keeps P (column ∷ columns) row complete made step h =
      elim (Bool-cases column.is_computed) [
        | inl e ↦ complete_row-keeps P columns row complete (ground (arith, made, e)) step h
        | inr e ↦
            let taken = complete_row_stored column columns row complete e made in
            complete_row-keeps P columns (HashMap.insert column.name taken.0 row) complete taken.1
              step (step column taken.0 row h)
      ]

  pub complete_row-HasUniqueKeys :
      (columns : List TableColumn) (row complete : HashMap String ColumnValue)
      → complete_row schema values columns row ≡ ok complete
      → HasUniqueKeys row
      → HasUniqueKeys complete
  complete_row-HasUniqueKeys columns row complete made =
      complete_row-keeps HasUniqueKeys columns row complete made
        (λ column v now. insert-HasUniqueKeys column.name v now)

  complete_row_still :
      (name : String) (columns : List TableColumn) (row complete : HashMap String ColumnValue)
      → complete_row schema values columns row ≡ ok complete
      → contains_key name row ≡ true
      → contains_key name complete ≡ true
  unfolding contains_key
  complete_row_still name columns row complete made =
      complete_row-keeps (λ now. contains_key name now ≡ true) columns row complete made
        (λ column v now h. ground (arith, get-insert column.name name v now, h))

  -- A column that is stored has a value in the row.
  pub complete_row-is_stored :
      (name : String) (columns : List TableColumn) (row complete : HashMap String ColumnValue)
      → complete_row schema values columns row ≡ ok complete
      → is_stored name columns ≡ true
      → contains_key name complete ≡ true
  unfolding complete_row is_stored
  complete_row-is_stored name [] row complete made h = cc
  complete_row-is_stored name (column ∷ columns) row complete made h =
      elim (Bool-cases column.is_computed) [
        | inl e ↦
            complete_row-is_stored name columns row complete (ground (arith, made, e))
              (ground (arith, h, e))
        | inr e ↦
            let taken = complete_row_stored column columns row complete e made in
            elim (Bool-cases (column.name == name)) [
              | inl same ↦
                  complete_row_still name columns (HashMap.insert column.name taken.0 row) complete
                    taken.1 (has_inserted column.name name taken.0 row same)
              | inr other ↦
                  complete_row-is_stored name columns (HashMap.insert column.name taken.0 row)
                    complete taken.1 (ground (arith, h, other))
            ]
      ]

  column_value-get :
      (column : TableColumn) (v w : ColumnValue)
      → get column.name values ≡ some v
      → column_value schema values column ≡ ok w
      → w ≡ v
  unfolding column_value
  column_value-get column v w given made =
      elim (Result-cases (validate_column_value schema column.name v)) [
        | inl (done, e) ↦ ground (arith, given, made, e)
        | inr (x, e) ↦ absurd (ground (arith, given, made, e))
      ]

  -- A value that is given for a stored column is the value of the row.
  pub complete_row-get :
      (name : String) (v : ColumnValue) (columns : List TableColumn)
      (row complete : HashMap String ColumnValue)
      → get name values ≡ some v
      → complete_row schema values columns row ≡ ok complete
      → (get name row ≡ some v) ⊎ (is_stored name columns ≡ true)
      → get name complete ≡ some v
  unfolding complete_row is_stored
  complete_row-get name v [] row complete given made (inl h) = ground (arith, h, made)
  complete_row-get name v [] row complete given made (inr h) = cc
  complete_row-get name v (column ∷ columns) row complete given made start =
      elim (Bool-cases column.is_computed) [
        | inl e ↦
            complete_row-get name v columns row complete given (ground (arith, made, e))
              (elim start [ inl h ↦ inl h | inr h ↦ inr (ground (arith, h, e)) ])
        | inr e ↦
            let (w, value, rest) =
              >>=_ok_inv
                (λ v. complete_row schema values columns (HashMap.insert column.name v row))
                (column_value schema values column) (ground (arith, made, e)) in
            complete_row-get name v columns (HashMap.insert column.name w row) complete given rest
              (elim (Bool-cases (column.name == name)) [
                | inl same ↦
                    let name_is : name ≡ column.name = sym ((==_iff column.name name).0 same) in
                    let w_is : w ≡ v =
                      column_value-get column v w (subst (λ n. get n values ≡ some v) name_is given)
                        value in
                    inl (ground (arith, get-insert column.name name w row, same, w_is))
                | inr other ↦ elim start [
                  | inl h ↦ inl (ground (arith, get-insert column.name name w row, other, h))
                  | inr h ↦ inr (ground (arith, h, other))
                ]
              ])
      ]
