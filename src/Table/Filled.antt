-- ===== src/Table/Filled.antt =====
-- src/table_runtime.rs: every row that is there has a value in every stored column, and the rows
-- are counted.
use tricti.Base.{
  ℕ, zero, suc, ◌+◌, ◌<◌, ◌≤◌, ◌≡◌, refl, sym, ap, ◌∙◌, subst, true, false, some, List, [], String,
  text_key, number_key, nat_beq, nat_beq_iff, arith, Bool-cases, inl, inr, if◌then◌else◌,
}
use tricti.Base.HashMap.{contains_key}
use tricti.Base.HashSet
use tricti.Base.HashSet.{contains, contains-insert}
use tricti.Ast.{TableDef}
use tricti.Table.Value.{ColumnValue}
use tricti.Table.State.{TableRuntime, LazyEvaluation}
use tricti.Table.Store.{cell}
use tricti.Table.Store.Complete.{is_stored}
use tricti.Table.Store.Stored.{contains_key-mark_deleted}
use tricti.Table.Read.{new_with}
use tricti.Table.Calls.{is_live, IsKept}
use tricti.Table.Keyed.Tables.{live_next, live_deleted, other_cells}
use tricti.Table.Keyed.Reached.{empty_columns-is_stored}
use tricti.Table.Steps.{Reached, Reached-keeps}

-- How many of the first `n` rows are not deleted.
unfoldable pub live_rows : (n : ℕ) (deleted_rows : List ℕ) → ℕ
unfolding contains
live_rows zero deleted_rows = 0
live_rows (suc n) deleted_rows =
    let before = live_rows n deleted_rows in if contains deleted_rows n then before else before + 1

live_rows-insert_past :
    (n id : ℕ) (deleted_rows : List ℕ)
    → n ≤ id
    → live_rows n (HashSet.insert id deleted_rows) ≡ live_rows n deleted_rows
unfolding live_rows
live_rows-insert_past zero id deleted_rows h = refl
live_rows-insert_past (suc n) id deleted_rows h = ground (
  arith,
  live_rows-insert_past n id deleted_rows (omega arith),
  contains-insert deleted_rows id n,
)

live_rows-insert :
    (n id : ℕ) (deleted_rows : List ℕ)
    → id < n
    → contains deleted_rows id ≡ false
    → live_rows n (HashSet.insert id deleted_rows) + 1 ≡ live_rows n deleted_rows
unfolding live_rows
live_rows-insert zero id deleted_rows h fresh = absurd (omega arith)
live_rows-insert (suc n) id deleted_rows h fresh = elim (Bool-cases (nat_beq id n)) [
  | inl e ↦ ground (
    arith,
    e,
    live_rows-insert_past n id deleted_rows (ground (arith, e)),
    contains-insert deleted_rows id n,
    fresh,
    ap (contains deleted_rows) ((nat_beq_iff id n).0 e),
  )
  | inr e ↦ ground (
    arith,
    e,
    live_rows-insert n id deleted_rows (ground (arith, e)) fresh,
    contains-insert deleted_rows id n,
  )
]

module _ {Engine : Type 0} where
  -- What is deleted was a row, the rows are counted, and a row has all its values.
  abbrev pub IsFilled : TableRuntime Engine → Type 0
  IsFilled t =
      ((r : ℕ) → contains t.deleted_rows r ≡ true → r < t.next_row_id)
      × (t.row_count ≡ live_rows t.next_row_id t.deleted_rows)
      × ((name : String)
          → is_stored name t.schema.columns ≡ true
          → (contains_key name t.storage.columns ≡ true)
            × ((r : ℕ)
                → is_live t r ≡ true
                → (v : ColumnValue) × (cell name r t.storage.columns ≡ some v)))

  kept : IsKept {Engine = Engine} IsFilled
  unfolding live_rows
  kept = record {
    failed = λ t now (names, others) (below, counted, filled). (
      below,
      counted,
      λ name stored. (
        names name ∙ (filled name stored).0,
        λ r alive.
            let (v, here) = (filled name stored).1 r alive in
            (v, others name r (λ e. ground (arith, alive, e)) ∙ here),
      ),
    );
    stored = λ t complete now (names, others) (has, free, writes) (below, counted, filled). (
      λ r gone. omega (arith, below r gone),
      ground (arith, counted, below t.next_row_id),
      λ name stored. (
        names name ∙ (filled name stored).0,
        λ r alive. elim (Bool-cases (nat_beq t.next_row_id r)) [
          | inl e ↦
              let (v, given) = has name stored in
              subst (λ j. (w : ColumnValue) × (cell name j now ≡ some w))
                ((nat_beq_iff t.next_row_id r).0 e) (v, writes name v given (filled name stored).0)
          | inr e ↦
              let was : is_live t r ≡ true =
                ground (arith, e, alive, live_next t.deleted_rows t.next_row_id r below) in
              let (v, here) = (filled name stored).1 r was in
              (v, others name r (λ same. ground (arith, e, same)) ∙ here)
        ],
      ),
    );
    updated = λ id t now (names, others) (key, values) (below, counted, filled). (
      below,
      counted,
      λ name stored. (
        names name ∙ (filled name stored).0,
        λ r alive. let (v, here) = (filled name stored).1 r alive in values name r v here,
      ),
    );
    deleted = λ id t alive (below, counted, filled). (
      λ r gone.
          ground
            (arith, gone, below r, contains-insert t.deleted_rows id r, alive, nat_beq_iff id r),
      ground (
        arith,
        counted,
        live_rows-insert t.next_row_id id t.deleted_rows (ground (arith, alive))
            (ground (arith, alive)),
      ),
      λ name stored. (
        contains_key-mark_deleted id name t.storage.columns ∙ (filled name stored).0,
        λ r still.
            let was : is_live t r ≡ true =
              ground (arith, still, live_deleted t.deleted_rows t.next_row_id id r) in
            let (v, here) = (filled name stored).1 r was in
            (
              v,
              other_cells id name t.storage.columns r (λ same. ground (
                arith,
                still,
                live_deleted t.deleted_rows t.next_row_id id r,
                nat_beq_iff id r,
                same,
              ))
                  ∙ here,
            ),
      ),
    );
  }

  pub Reached-IsFilled :
      ⦃lazy : LazyEvaluation Engine⦄ {schema : TableDef} {t : TableRuntime Engine}
      → Reached schema t
      → IsFilled t
  unfolding new_with contains live_rows
  Reached-IsFilled {schema} reached =
      Reached-keeps IsFilled kept (λ t u (indexes, engine, e) h. subst IsFilled (sym e) h)
        (λ engine. (
          λ r gone. cc,
          refl,
          λ name stored. (
            empty_columns-is_stored name schema.columns [] stored,
            λ r alive. absurd (ground (arith, alive)),
          ),
        ))
        reached
