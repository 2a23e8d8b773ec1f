-- ===== src/Crud/Absent.antt =====
-- crud/crud.go: Get, List and Delete on every answer of the database.
use luima.Prelude.{
  ℕ, zero, suc, true, false, List, [], ◌∷◌, none, some, ◌≡◌, refl, ◌≢◌, arith, Option-cases, ◌⊎◌,
  inl, inr,
}
use luima.Prelude.Int.{ℤ, pos, negsuc}
use luima.Luimaerr.Errors.{GoError, no_rows, as_type, is_no_rows}
use luima.Luimaerr.Chain.{InChain, as_type_sound, as_type_complete}
use luima.Crud.{
  Result, ok, err, Slice, nil_slice, slice, Bun, apply_all, get, get_outcome, list, delete,
  delete_outcome, delete_count,
}

is_no_rows-eq-some : (x : GoError) {u : Unit {0}} → is_no_rows x ≡ some u → x ≡ no_rows
is_no_rows-eq-some no_rows h = refl
is_no_rows-eq-some _ h = absurd (cc)

module _ {T : Type 0} (bun : Bun T) where
  open bun use {Database, SelectQuery, DeleteQuery, SqlResult}

  -- The statement that `Get` runs, and its answer.
  abbrev pub selected : Database → T → List (SelectQuery → SelectQuery) → Database × Result T
  selected db key opts =
      bun.scan_model (apply_all opts (bun.select_where_pk (bun.select_model key))) key db

  get_outcome_cases :
      (r : Result T)
      → ((row : T) × (r ≡ ok row) × (get_outcome bun r ≡ ok (some row)))
        ⊎ ((e : GoError) × (r ≡ err e) × InChain no_rows e × (get_outcome bun r ≡ ok none))
        ⊎ ((e : GoError) × (r ≡ err e) × ¬ InChain no_rows e × (get_outcome bun r ≡ err e))
  unfolding get_outcome
  get_outcome_cases (ok row) = inl (row, refl, refl)
  get_outcome_cases (err e) = elim (Option-cases (as_type is_no_rows e)) [
    | inl q ↦
        inr
          (inr (e, refl, (λ i. absurd (cc (as_type_complete is_no_rows i q))), rw (q, get_outcome)))
    | inr (u, q) ↦
        let (x, i, h) = as_type_sound is_no_rows e u q in
        inr (inl (e, refl, rw (is_no_rows-eq-some x h) at i, rw (q, get_outcome)))
  ]

  -- `Get` runs the select by primary key with the options after it, and answers with the row, with
  -- nothing where sql.ErrNoRows is in the chain of the error, and with any other error as it is.
  pub get_cases :
      (db : Database) (key : T) (opts : List (SelectQuery → SelectQuery))
      → ((get bun db key opts).0 ≡ (selected db key opts).0)
        × (((row : T) × ((selected db key opts).1 ≡ ok row)
              × ((get bun db key opts).1 ≡ ok (some row)))
            ⊎ ((e : GoError) × ((selected db key opts).1 ≡ err e)
                × InChain no_rows e
                × ((get bun db key opts).1 ≡ ok none))
            ⊎ ((e : GoError) × ((selected db key opts).1 ≡ err e)
                × ¬ InChain no_rows e
                × ((get bun db key opts).1 ≡ err e)))
  unfolding get
  get_cases db key opts = (refl, get_outcome_cases (selected db key opts).1)

  -- `List` never answers with a nil slice, where a scan leaves the slice that it was handed as it was
  -- when there are no rows, and fills it otherwise.
  pub list_not_nil :
      ((q : SelectQuery) (s : Slice T) (db : Database)
        → ((e : GoError) × ((bun.scan_models q s db).1 ≡ err e))
          ⊎ ((bun.scan_models q s db).1 ≡ ok s)
          ⊎ ((row : T) × (rows : List T) × ((bun.scan_models q s db).1 ≡ ok (slice (row ∷ rows)))))
      → (db : Database) (opts : List (SelectQuery → SelectQuery))
      → (list bun db opts).1 ≢ ok nil_slice
  unfolding list
  list_not_nil scans db opts h =
      elim (scans (apply_all opts (bun.select_models [])) (slice []) db) [
        | inl (e, q) ↦ cc
        | inr (inl q) ↦ cc
        | inr (inr (row, rows, q)) ↦ cc
      ]

  abbrev pub deleted : Database → T → List (DeleteQuery → DeleteQuery) → Database × Result SqlResult
  deleted db key opts =
      bun.exec_delete (apply_all opts (bun.delete_where_pk (bun.delete_model key))) db

  delete_count_cases :
      (r : Result ℤ)
      → ((e : GoError) × (r ≡ err e) × (delete_count bun r ≡ err e))
        ⊎ ((n : ℕ) × (r ≡ ok (pos (suc n))) × (delete_count bun r ≡ ok true))
        ⊎ ((n : ℤ) × (r ≡ ok n) × ((k : ℕ) → n ≢ pos (suc k)) × (delete_count bun r ≡ ok false))
  unfolding delete_count
  delete_count_cases (err e) = inl (e, refl, refl)
  delete_count_cases (ok (pos (suc n))) = inr (inl (n, refl, ground arith))
  delete_count_cases (ok (pos zero)) = inr (inr (pos 0, refl, (λ k h. absurd (cc)), refl))
  delete_count_cases (ok (negsuc n)) = inr (inr (negsuc n, refl, (λ k h. absurd (cc)), refl))

  delete_outcome_cases :
      (r : Result SqlResult)
      → ((e : GoError) × (r ≡ err e) × (delete_outcome bun r ≡ err e))
        ⊎ ((res : SqlResult) × (r ≡ ok res)
            × (((e : GoError) × (bun.rows_affected res ≡ err e) × (delete_outcome bun r ≡ err e))
                ⊎ ((n : ℕ) × (bun.rows_affected res ≡ ok (pos (suc n)))
                    × (delete_outcome bun r ≡ ok true))
                ⊎ ((n : ℤ) × (bun.rows_affected res ≡ ok n)
                    × ((k : ℕ) → n ≢ pos (suc k))
                    × (delete_outcome bun r ≡ ok false))))
  unfolding delete_outcome
  delete_outcome_cases (err e) = inl (e, refl, refl)
  delete_outcome_cases (ok res) = inr (res, refl, delete_count_cases (bun.rows_affected res))

  -- `Delete` runs the delete by primary key with the options after it, and says whether a row was
  -- affected; an error of the statement or of its count is returned as it is.
  pub delete_cases :
      (db : Database) (key : T) (opts : List (DeleteQuery → DeleteQuery))
      → ((delete bun db key opts).0 ≡ (deleted db key opts).0)
        × (((e : GoError) × ((deleted db key opts).1 ≡ err e)
              × ((delete bun db key opts).1 ≡ err e))
            ⊎ ((res : SqlResult) × ((deleted db key opts).1 ≡ ok res)
                × (((e : GoError) × (bun.rows_affected res ≡ err e)
                      × ((delete bun db key opts).1 ≡ err e))
                    ⊎ ((n : ℕ) × (bun.rows_affected res ≡ ok (pos (suc n)))
                        × ((delete bun db key opts).1 ≡ ok true))
                    ⊎ ((n : ℤ) × (bun.rows_affected res ≡ ok n)
                        × ((k : ℕ) → n ≢ pos (suc k))
                        × ((delete bun db key opts).1 ≡ ok false)))))
  unfolding delete
  delete_cases db key opts = (refl, delete_outcome_cases (deleted db key opts).1)
