-- ===== src/Table/Scan/Agree.antt =====
-- src/table_runtime.rs: the scans and the iterators give the same rows.
use tricti.Base.{
  ℕ, zero, suc, ◌+◌, ◌≤◌, ◌<◌, ◌≡◌, refl, sym, ap, ◌∙◌, Bool, false, not, List, [], ◌∷◌, ◌++◌,
  length, text_key, number_key, arith, Bool-cases, inl, inr, if◌then◌else◌, retain,
}
use tricti.Base.Result.{Result, ok, err}
use tricti.Base.HashSet.{contains}
use tricti.Ast.{TableDef}
use tricti.Table.Error.{TableError}
use tricti.Table.State.{TableRow, TableRuntime, LazyEvaluation}
use tricti.Table.Rows.{is_missing}
use tricti.Table.Read.{get_row}
use tricti.Table.Read.Whole.{get_row_total}
use tricti.Table.Filled.{IsFilled, live_rows, Reached-IsFilled}
use tricti.Table.Steps.{Reached}
use tricti.Table.Scan.{
  range, push_row, push_filtered, rows_at, filtered_rows_at, scan_all, scan_filtered, present_rows,
  iter_rows, iter_filtered,
}

range-snoc : (i n : ℕ) → range i (suc n) ≡ range i n ++ (i + n) ∷ []
unfolding range
range-snoc i zero = ap (λ k. k ∷ []) (omega arith)
range-snoc i (suc n) =
    ap (λ ks. i ∷ ks) (range-snoc (i + 1) n ∙ ap (λ k. range (i + 1) n ++ k ∷ []) (omega arith))

retain-push_row :
    (p : TableRow → Bool) (r : ℕ) (read : Result TableError TableRow) (rest : List (ℕ × TableRow))
    → push_filtered p r read (retain (λ e. p e.1) rest) ≡ retain (λ e. p e.1) (push_row r read rest)
unfolding push_filtered push_row retain
retain-push_row p r (err e) rest = refl
retain-push_row p r (ok row) rest = refl

length-push_row :
    (r : ℕ) (read : Result TableError TableRow) (rest : List (ℕ × TableRow))
    → length (push_row r read rest) ≡ length (push_row r read []) + length rest
unfolding push_row
length-push_row r (err e) rest = omega arith
length-push_row r (ok row) rest = omega arith

one_row :
    (r : ℕ) (read : Result TableError TableRow)
    → (row : TableRow) × (read ≡ ok row)
    → length (push_row r read []) ≡ 1
unfolding push_row
one_row r (err e) (row, h) = cc
one_row r (ok row) found = refl

module _ {Engine : Type 0} (t : TableRuntime Engine) where
  present : (r : ℕ) → contains t.deleted_rows r ≡ false → r < t.next_row_id → is_missing r t ≡ false
  unfolding is_missing
  present r e h = ground (arith, e)

module _ {Engine : Type 0} ⦃lazy : LazyEvaluation Engine⦄ (t : TableRuntime Engine) where
  present_rows-retain :
      (ids : List ℕ)
      → present_rows t (retain (λ r. not (contains t.deleted_rows r)) ids) ≡ rows_at t ids
  unfolding present_rows retain rows_at
  present_rows-retain [] = refl
  present_rows-retain (r ∷ ids) = elim (Bool-cases (contains t.deleted_rows r)) [
    | inl e ↦ rw e (present_rows-retain ids)
    | inr e ↦ rw e (ap (push_row r (get_row r t)) (present_rows-retain ids))
  ]

  filtered_rows_at-retain :
      (p : TableRow → Bool) (ids : List ℕ)
      → filtered_rows_at p t ids ≡ retain (λ e. p e.1) (rows_at t ids)
  unfolding filtered_rows_at rows_at retain
  filtered_rows_at-retain p [] = refl
  filtered_rows_at-retain p (r ∷ ids) = elim (Bool-cases (contains t.deleted_rows r)) [
    | inl e ↦ rw e (filtered_rows_at-retain p ids)
    | inr e ↦ rw e (
        ap (push_filtered p r (get_row r t)) (filtered_rows_at-retain p ids)
        ∙ retain-push_row p r (get_row r t) (rows_at t ids))
  ]

  -- The iterators give, in the same order, the rows of the scans, and a filtered scan gives those
  -- rows of the whole scan that the predicate accepts.
  pub iterators_agree :
      (p : TableRow → Bool)
      → (iter_rows t ≡ scan_all t)
        × (iter_filtered p t ≡ scan_filtered p t)
        × (scan_filtered p t ≡ retain (λ e. p e.1) (scan_all t))
  unfolding iter_rows scan_all iter_filtered scan_filtered
  iterators_agree p =
      let ids = range 0 t.next_row_id in
      let whole = present_rows-retain ids in
      let chosen = filtered_rows_at-retain p ids in
      (whole, ap (retain (λ e. p e.1)) whole ∙ sym chosen, chosen)

  length-rows_at_cons :
      (r : ℕ) (ids : List ℕ)
      → length (rows_at t (r ∷ ids)) ≡ length (rows_at t (r ∷ [])) + length (rows_at t ids)
  unfolding rows_at
  length-rows_at_cons r ids = elim (Bool-cases (contains t.deleted_rows r)) [
    | inl e ↦ rw e (omega arith)
    | inr e ↦ rw e (length-push_row r (get_row r t) (rows_at t ids))
  ]

  length-rows_at_snoc :
      (ids : List ℕ) (r : ℕ)
      → length (rows_at t (ids ++ r ∷ [])) ≡ length (rows_at t ids) + length (rows_at t (r ∷ []))
  unfolding rows_at
  length-rows_at_snoc [] r = ground arith
  length-rows_at_snoc (i ∷ ids) r = omega (
    arith,
    length-rows_at_cons i (ids ++ r ∷ []),
    length-rows_at_cons i ids,
    length-rows_at_snoc ids r,
  )

  length-rows_at_one :
      (r : ℕ)
      → IsFilled t
      → r < t.next_row_id
      → length (rows_at t (r ∷ [])) ≡ (if contains t.deleted_rows r then 0 else 1)
  unfolding rows_at
  length-rows_at_one r filled h = elim (Bool-cases (contains t.deleted_rows r)) [
    | inl e ↦ rw e refl
    | inr e ↦ rw e (one_row r (get_row r t) (get_row_total t r filled (present t r e h)))
  ]

  scan_length :
      (n : ℕ)
      → IsFilled t
      → n ≤ t.next_row_id
      → length (rows_at t (range 0 n)) ≡ live_rows n t.deleted_rows
  unfolding live_rows rows_at range
  scan_length zero filled h = refl
  scan_length (suc n) filled h =
      ap (λ ids. length (rows_at t ids)) (range-snoc 0 n)
      ∙ ground (
        arith,
        length-rows_at_snoc (range 0 n) n,
        length-rows_at_one n filled (omega arith),
        scan_length n filled (omega arith),
      )

module _ {Engine : Type 0} ⦃lazy : LazyEvaluation Engine⦄ where
  -- In every table that the calls make, whatever calls failed: the whole scan has as many rows as
  -- the table counts.
  pub length-scan_all :
      {schema : TableDef} {t : TableRuntime Engine}
      → Reached schema t
      → length (scan_all t) ≡ t.row_count
  unfolding scan_all
  length-scan_all {t = t} reached =
      let filled = Reached-IsFilled reached in
      scan_length t t.next_row_id filled (omega arith) ∙ sym filled.1
