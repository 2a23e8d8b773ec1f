-- ===== src/Crud/Keyed.antt =====
-- crud/crud.go over a table with a primary key: what bun and the database answer to the statements that the
-- helpers run with no options, and a map of rows with the same five calls.
pub mod Refines
pub mod Apart
use luima.Prelude.{
  Bool, true, false, List, [], ◌∷◌, ◌++◌, Option, none, some, Text, codes, ◌≡◌, ◌↔◌, if◌then◌else◌,
}
use luima.Prelude.Int.{ℤ, pos}
use luima.Luimaerr.Errors.{GoError, no_rows, sql_state}
use luima.Luimaerr.Chain.{InChain}
use luima.Luimaerr.Context.{Context}
use luima.Luimaerr.Present.{present_error}
use luima.Crud.{Result, ok, err, Bun, get, create, update, delete}
use luima.Crud.Outcomes.{unique_violation}

-- A map with the entry at one key replaced.
abbrev pub set_at : {K T : Type 0} → (K → K → Bool) → K → Option T → (K → Option T) → K → Option T
set_at same k entry rows j = if same j k then entry else rows j

-- A table: the key of a model, the rows by their keys, and the row that is stored for a model, with what
-- the columns' defaults and the triggers make of it. Each statement answers by whether there is a row under
-- the key of its model.
pub record Keyed {T : Type 0} (bun : Bun T) : Type 1 where
  pub K : Type 0
  pub key : T → K
  pub same : K → K → Bool
  pub same_iff : (j k : K) → (same j k ≡ true) ↔ (j ≡ k)
  pub rows : bun.Database → K → Option T
  pub stored : T → T
  pub selects :
      (m row : T) (db : bun.Database)
      → rows db (key m) ≡ some row
      → (rows (bun.scan_model (bun.select_where_pk (bun.select_model m)) m db).0 ≡ rows db)
        × ((bun.scan_model (bun.select_where_pk (bun.select_model m)) m db).1 ≡ ok row)
  pub selects_none :
      (m : T) (db : bun.Database)
      → rows db (key m) ≡ none
      → (rows (bun.scan_model (bun.select_where_pk (bun.select_model m)) m db).0 ≡ rows db)
        × ((e : GoError) × ((bun.scan_model (bun.select_where_pk (bun.select_model m)) m db).1
              ≡ err e)
            × InChain no_rows e)
  pub inserts :
      (m : T) (db : bun.Database)
      → rows db (key m) ≡ none
      → (rows (bun.exec_insert (bun.insert_returning (codes "*") (bun.insert_model m)) m db).0
          ≡ set_at same (key m) (some (stored m)) (rows db))
        × ((res : bun.SqlResult) × ((bun.exec_insert
                (bun.insert_returning (codes "*") (bun.insert_model m))
                m
                db).1
              ≡ ok (res, stored m))
            × (bun.rows_affected res ≡ ok (pos 1)))
  pub inserts_none :
      (m row : T) (db : bun.Database)
      → rows db (key m) ≡ some row
      → (rows (bun.exec_insert (bun.insert_returning (codes "*") (bun.insert_model m)) m db).0
          ≡ rows db)
        × ((e : GoError) × ((bun.exec_insert
                (bun.insert_returning (codes "*") (bun.insert_model m))
                m
                db).1
              ≡ err e)
            × (sql_state e ≡ unique_violation))
  pub updates :
      (m row : T) (db : bun.Database)
      → rows db (key m) ≡ some row
      → (rows
            (bun.exec_update
              (bun.update_returning (codes "*") (bun.update_where_pk (bun.update_model m)))
              m
              db).0
          ≡ set_at same (key m) (some (stored m)) (rows db))
        × ((res : bun.SqlResult) × ((bun.exec_update
                (bun.update_returning (codes "*") (bun.update_where_pk (bun.update_model m)))
                m
                db).1
              ≡ ok (res, stored m))
            × (bun.rows_affected res ≡ ok (pos 1)))
  pub updates_none :
      (m : T) (db : bun.Database)
      → rows db (key m) ≡ none
      → (rows
            (bun.exec_update
              (bun.update_returning (codes "*") (bun.update_where_pk (bun.update_model m)))
              m
              db).0
          ≡ rows db)
        × ((res : bun.SqlResult) × (row : T) × ((bun.exec_update
                (bun.update_returning (codes "*") (bun.update_where_pk (bun.update_model m)))
                m
                db).1
              ≡ ok (res, row))
            × (bun.rows_affected res ≡ ok (pos 0)))
  pub deletes :
      (m row : T) (db : bun.Database)
      → rows db (key m) ≡ some row
      → (rows (bun.exec_delete (bun.delete_where_pk (bun.delete_model m)) db).0
          ≡ set_at same (key m) none (rows db))
        × ((res : bun.SqlResult) × ((bun.exec_delete
                (bun.delete_where_pk (bun.delete_model m))
                db).1
              ≡ ok res)
            × (bun.rows_affected res ≡ ok (pos 1)))
  pub deletes_none :
      (m : T) (db : bun.Database)
      → rows db (key m) ≡ none
      → (rows (bun.exec_delete (bun.delete_where_pk (bun.delete_model m)) db).0 ≡ rows db)
        × ((res : bun.SqlResult) × ((bun.exec_delete
                (bun.delete_where_pk (bun.delete_model m))
                db).1
              ≡ ok res)
            × (bun.rows_affected res ≡ ok (pos 0)))

-- A call of a helper, with the label that the resolver gives.
pub data Request (T : Type 0) : Type 0 where
  gets deletes : T → Request T
  creates updates : T → Text → Request T

-- What a client sees of a result: a row or none, a Boolean, or the message of an error.
pub data Reply (T : Type 0) : Type 0 where
  answered : Option T → Reply T
  said : Bool → Reply T
  told : Text → Reply T

module _ {T : Type 0} (bun : Bun T) (ctx : Context) where
  abbrev pub reply {ℓ} : {A : Type ℓ} → (A → Reply T) → Result A → Reply T
  reply shown (ok a) = shown a
  reply shown (err e) = told (present_error ctx e).response.message

  -- The helper that a request calls, and what the client sees of its result.
  unfoldable pub call : Request T → bun.Database → bun.Database × Reply T
  call (gets m) db = let (db', r) = get bun db m [] in (db', reply answered r)
  call (creates m label) db = let (db', r) = create bun db m label [] in (db', reply answered r)
  call (updates m label) db =
      let (db', r) = update bun db m label [] in (db', reply (λ row. answered (some row)) r)
  call (deletes m) db = let (db', r) = delete bun db m [] in (db', reply said r)

  unfoldable pub run : List (Request T) → bun.Database → bun.Database × List (Reply T)
  run [] db = (db, [])
  run (req ∷ reqs) db = let (db1, r) = call req db in let (db2, rs) = run reqs db1 in (db2, r ∷ rs)

-- The same calls on a map of rows.
module _ {T : Type 0} {bun : Bun T} (table : Keyed bun) where
  open table use {K, key, same, stored}

  -- The model that a request hands to its helper, whose key it is about.
  abbrev pub model_of : Request T → T
  model_of (gets m) = m
  model_of (creates m label) = m
  model_of (updates m label) = m
  model_of (deletes m) = m

  abbrev pub Rows : Type 0
  Rows = K → Option T

  abbrev pub created : T → Text → Rows → Option T → Rows × Reply T
  created m label rows none =
      (set_at same (key m) (some (stored m)) rows, answered (some (stored m)))
  created m label rows (some row) = (rows, told (label ++ codes " already exists"))

  abbrev pub updated : T → Text → Rows → Option T → Rows × Reply T
  updated m label rows none = (rows, told (label ++ codes " not found"))
  updated m label rows (some row) =
      (set_at same (key m) (some (stored m)) rows, answered (some (stored m)))

  abbrev pub deleted : T → Rows → Option T → Rows × Reply T
  deleted m rows none = (rows, said false)
  deleted m rows (some row) = (set_at same (key m) none rows, said true)

  unfoldable pub serve : Request T → Rows → Rows × Reply T
  serve (gets m) rows = (rows, answered (rows (key m)))
  serve (creates m label) rows = created m label rows (rows (key m))
  serve (updates m label) rows = updated m label rows (rows (key m))
  serve (deletes m) rows = deleted m rows (rows (key m))

  unfoldable pub replay : List (Request T) → Rows → Rows × List (Reply T)
  replay [] rows = (rows, [])
  replay (req ∷ reqs) rows =
      let (rows1, r) = serve req rows in let (rows2, rs) = replay reqs rows1 in (rows2, r ∷ rs)
