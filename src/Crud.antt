-- ===== src/Crud.antt =====
-- crud/crud.go: `Get`, `List`, `Create`, `Update` and `Delete`. bun is a parameter: its query builders
-- and what a statement answers; the database is the state that a statement changes.
mod Absent
pub mod Outcomes
pub mod Disclosure
pub mod Keyed
pub mod Memory
mod Tests
mod KeyedTests
use luima.Prelude.{
  ℕ, suc, ◌++◌, Bool, true, false, List, [], ◌∷◌, Option, none, some, Text, codes, text_eq, ltb,
  if◌then◌else◌,
}
use luima.Prelude.Int.{ℤ, pos, negsuc}
use luima.Luimaerr.Errors.{
  GoError, custom, Cause, no_cause, caused_by, as_type, is_no_rows, sql_state,
}

-- A Go pair of a value and an error.
pub data Result {ℓ} (A : Type ℓ) : Type ℓ where
  ok : A → Result A
  err : GoError → Result A

-- A slice: nil, or the items that it holds.
pub data Slice {ℓ} (A : Type ℓ) : Type ℓ where
  nil_slice : Slice A
  slice : List A → Slice A

-- bun over models of type `T`: each builder's type, its construction, and its execution, which writes
-- the row that it reads back into the model that the query holds. `*_result` is `sql.Result`.
pub record Bun (T : Type 0) : Type 1 where
  pub Database : Type 0
  pub SelectQuery : Type 0
  pub InsertQuery : Type 0
  pub UpdateQuery : Type 0
  pub DeleteQuery : Type 0
  pub SqlResult : Type 0
  pub select_model : T → SelectQuery
  pub select_models : List T → SelectQuery
  pub select_where_pk : SelectQuery → SelectQuery
  pub insert_model : T → InsertQuery
  pub insert_returning : Text → InsertQuery → InsertQuery
  pub update_model : T → UpdateQuery
  pub update_where_pk : UpdateQuery → UpdateQuery
  pub update_returning : Text → UpdateQuery → UpdateQuery
  pub delete_model : T → DeleteQuery
  pub delete_where_pk : DeleteQuery → DeleteQuery
  pub scan_model : SelectQuery → T → Database → Database × Result T
  pub scan_models : SelectQuery → Slice T → Database → Database × Result (Slice T)
  pub exec_insert : InsertQuery → T → Database → Database × Result (SqlResult × T)
  pub exec_update : UpdateQuery → T → Database → Database × Result (SqlResult × T)
  pub exec_delete : DeleteQuery → Database → Database × Result SqlResult
  pub rows_affected : SqlResult → Result ℤ

-- The loop over the options, left to right.
unfoldable pub apply_all {ℓ} : {Q : Type ℓ} → List (Q → Q) → Q → Q
apply_all [] q = q
apply_all (opt ∷ opts) q = apply_all opts (opt q)

abbrev pub is_zero : ℤ → Bool
is_zero (pos ℕ.zero) = true
is_zero _ = false

abbrev pub is_positive : ℤ → Bool
is_positive (pos n) = ltb 0 n
is_positive (negsuc n) = false

module _ {T : Type 0} (bun : Bun T) where
  open bun use {Database, SelectQuery, InsertQuery, UpdateQuery, DeleteQuery, SqlResult}

  -- A row that is not there is no error.
  unfoldable pub get_outcome : Result T → Result (Option T)
  get_outcome (ok row) = ok (some row)
  get_outcome (err e) = elim (as_type is_no_rows e) [ some _ ↦ ok none | none ↦ err e ]

  unfoldable pub get :
      Database → T → List (SelectQuery → SelectQuery) → Database × Result (Option T)
  get db key opts =
      let q = apply_all opts (bun.select_where_pk (bun.select_model key)) in
      let (db', r) = bun.scan_model q key db in (db', get_outcome r)

  -- `rows` is seeded with a slice that is empty and not nil.
  unfoldable pub list : Database → List (SelectQuery → SelectQuery) → Database × Result (Slice T)
  list db opts = bun.scan_models (apply_all opts (bun.select_models [])) (slice []) db

  -- `RowsAffected`, after a statement that did not fail: zero is absence.
  unfoldable pub create_count : T → Result ℤ → Result (Option T)
  create_count m (ok n) = if is_zero n then ok none else ok (some m)
  create_count m (err e) = err e

  unfoldable pub conflict : Text → GoError → GoError
  conflict label e = custom (label ++ codes " already exists") (caused_by e) (codes "CONFLICT")

  unfoldable pub create_outcome : Text → Result (SqlResult × T) → Result (Option T)
  create_outcome label (ok (res, m)) = create_count m (bun.rows_affected res)
  create_outcome label (err e) =
      if text_eq (sql_state e) (codes "23505") then err (conflict label e) else err e

  unfoldable pub create :
      Database → T → Text → List (InsertQuery → InsertQuery) → Database × Result (Option T)
  create db m label opts =
      let q = apply_all opts (bun.insert_returning (codes "*") (bun.insert_model m)) in
      let (db', r) = bun.exec_insert q m db in (db', create_outcome label r)

  unfoldable pub not_found : Text → GoError
  not_found label = custom (label ++ codes " not found") no_cause (codes "NOT_FOUND")

  unfoldable pub update_count : Text → T → Result ℤ → Result T
  update_count label m (ok n) = if is_zero n then err (not_found label) else ok m
  update_count label m (err e) = err e

  unfoldable pub update_outcome : Text → Result (SqlResult × T) → Result T
  update_outcome label (ok (res, m)) = update_count label m (bun.rows_affected res)
  update_outcome label (err e) = err e

  unfoldable pub update :
      Database → T → Text → List (UpdateQuery → UpdateQuery) → Database × Result T
  update db m label opts =
      let q =
        apply_all opts
          (bun.update_returning (codes "*") (bun.update_where_pk (bun.update_model m))) in
      let (db', r) = bun.exec_update q m db in (db', update_outcome label r)

  unfoldable pub delete_count : Result ℤ → Result Bool
  delete_count (ok n) = ok (is_positive n)
  delete_count (err e) = err e

  unfoldable pub delete_outcome : Result SqlResult → Result Bool
  delete_outcome (ok res) = delete_count (bun.rows_affected res)
  delete_outcome (err e) = err e

  unfoldable pub delete : Database → T → List (DeleteQuery → DeleteQuery) → Database × Result Bool
  delete db key opts =
      let q = apply_all opts (bun.delete_where_pk (bun.delete_model key)) in
      let (db', r) = bun.exec_delete q db in (db', delete_outcome r)
