-- ===== src/Crud/Disclosure.antt =====
-- crud/crud.go: what of the errors of the database a client is told, whichever helper returns them.
use luima.Prelude.{
  ◌++◌, List, [], none, ◌≡◌, ◌≢◌, Text, codes, text_eq, Bool-cases, Option-cases, ◌⊎◌, inl, inr,
}
use luima.Prelude.Int.{ℤ}
use luima.Luimaerr.Errors.{GoError, as_type, is_no_rows, is_custom, sql_state}
use luima.Luimaerr.Context.{Context}
use luima.Luimaerr.Present.{present_error}
use luima.Luimaerr.Chain.{InChain}
use luima.Luimaerr.Redaction.{IsRedacted, present_error-IsRedacted}
use luima.Crud.{
  Result, ok, err, Slice, slice, Bun, is_zero, get, get_outcome, list, create, create_outcome,
  create_count, update, update_outcome, update_count, delete, delete_outcome, delete_count,
}
use luima.Crud.Outcomes.{Tells, conflict-Tells, not_found-Tells}

-- No CustomError is in the chain of an error.
abbrev pub IsPlain : GoError → Type 0
IsPlain e = (x : GoError) → InChain x e → is_custom x ≡ none

abbrev pub IsPlainResult {ℓ} : {A : Type ℓ} → Result A → Type 0
IsPlainResult (ok a) = Unit
IsPlainResult (err e) = IsPlain e

-- A database that knows nothing of CustomError.
pub record PlainBun {T : Type 0} (bun : Bun T) : Type 0 where
  pub scan_model :
      (q : bun.SelectQuery) (m : T) (db : bun.Database) → IsPlainResult (bun.scan_model q m db).1
  pub scan_models :
      (q : bun.SelectQuery) (s : Slice T) (db : bun.Database)
      → IsPlainResult (bun.scan_models q s db).1
  pub exec_insert :
      (q : bun.InsertQuery) (m : T) (db : bun.Database) → IsPlainResult (bun.exec_insert q m db).1
  pub exec_update :
      (q : bun.UpdateQuery) (m : T) (db : bun.Database) → IsPlainResult (bun.exec_update q m db).1
  pub exec_delete :
      (q : bun.DeleteQuery) (db : bun.Database) → IsPlainResult (bun.exec_delete q db).1
  pub rows_affected : (res : bun.SqlResult) → IsPlainResult (bun.rows_affected res)

-- The error of a result reaches the client redacted, or as what is allowed.
abbrev pub Discloses {ℓ} : {A : Type ℓ} → Context → (GoError → Type 0) → Result A → Type 0
Discloses ctx allowed (ok a) = Unit
Discloses ctx allowed (err e) = IsRedacted e (present_error ctx e) ⊎ allowed e

abbrev pub Nothing : GoError → Type 0
Nothing e = ⊥

abbrev pub Conflicts : Text → GoError → Type 0
Conflicts label e = Tells e (label ++ codes " already exists") (codes "CONFLICT")

abbrev pub Misses : Text → GoError → Type 0
Misses label e = Tells e (label ++ codes " not found") (codes "NOT_FOUND")

module _ {T : Type 0} (bun : Bun T) (ctx : Context) where
  open bun use {Database, SelectQuery, InsertQuery, UpdateQuery, DeleteQuery, SqlResult}

  plain-Discloses {ℓ} :
      {A : Type ℓ} (allowed : GoError → Type 0) (r : Result A)
      → ctx.field ≢ none
      → IsPlainResult r
      → Discloses ctx allowed r
  plain-Discloses allowed (ok a) field h = tt
  plain-Discloses allowed (err e) field h = inl (present_error-IsRedacted ctx e h (inl field))

  get_outcome-Discloses :
      (r : Result T)
      → ctx.field ≢ none
      → IsPlainResult r
      → Discloses ctx Nothing (get_outcome bun r)
  unfolding get_outcome
  get_outcome-Discloses (ok row) field h = tt
  get_outcome-Discloses (err e) field h = elim (Option-cases (as_type is_no_rows e)) [
    | inl q ↦ rw (q, get_outcome, Discloses) (inl (present_error-IsRedacted ctx e h (inl field)))
    | inr (u, q) ↦ rw (q, get_outcome, Discloses) tt
  ]

  create_count-Discloses :
      (label : Text) (m : T) (r : Result ℤ)
      → ctx.field ≢ none
      → IsPlainResult r
      → Discloses ctx (Conflicts label) (create_count bun m r)
  unfolding create_count
  create_count-Discloses label m (err e) field h =
      inl (present_error-IsRedacted ctx e h (inl field))
  create_count-Discloses label m (ok n) field h = elim (Bool-cases (is_zero n)) [
    | inl q ↦ rw q tt
    | inr q ↦ rw q tt
  ]

  create_outcome-Discloses :
      (label : Text) (r : Result (SqlResult × T))
      → ctx.field ≢ none
      → PlainBun bun
      → IsPlainResult r
      → Discloses ctx (Conflicts label) (create_outcome bun label r)
  unfolding create_outcome
  create_outcome-Discloses label (ok (res, m)) field plain h =
      create_count-Discloses label m (bun.rows_affected res) field (plain.rows_affected res)
  create_outcome-Discloses label (err e) field plain h =
      elim (Bool-cases (text_eq (sql_state e) (codes "23505"))) [
        | inl q ↦ rw q (inr (conflict-Tells bun label e))
        | inr q ↦ rw q (inl (present_error-IsRedacted ctx e h (inl field)))
      ]

  update_count-Discloses :
      (label : Text) (m : T) (r : Result ℤ)
      → ctx.field ≢ none
      → IsPlainResult r
      → Discloses ctx (Misses label) (update_count bun label m r)
  unfolding update_count
  update_count-Discloses label m (err e) field h =
      inl (present_error-IsRedacted ctx e h (inl field))
  update_count-Discloses label m (ok n) field h = elim (Bool-cases (is_zero n)) [
    | inl q ↦ rw q (inr (not_found-Tells bun label))
    | inr q ↦ rw q tt
  ]

  update_outcome-Discloses :
      (label : Text) (r : Result (SqlResult × T))
      → ctx.field ≢ none
      → PlainBun bun
      → IsPlainResult r
      → Discloses ctx (Misses label) (update_outcome bun label r)
  unfolding update_outcome
  update_outcome-Discloses label (err e) field plain h =
      inl (present_error-IsRedacted ctx e h (inl field))
  update_outcome-Discloses label (ok (res, m)) field plain h =
      update_count-Discloses label m (bun.rows_affected res) field (plain.rows_affected res)

  delete_count-Discloses :
      (r : Result ℤ)
      → ctx.field ≢ none
      → IsPlainResult r
      → Discloses ctx Nothing (delete_count bun r)
  unfolding delete_count
  delete_count-Discloses (ok n) field h = tt
  delete_count-Discloses (err e) field h = inl (present_error-IsRedacted ctx e h (inl field))

  delete_outcome-Discloses :
      (r : Result SqlResult)
      → ctx.field ≢ none
      → PlainBun bun
      → IsPlainResult r
      → Discloses ctx Nothing (delete_outcome bun r)
  unfolding delete_outcome
  delete_outcome-Discloses (ok res) field plain h =
      delete_count-Discloses (bun.rows_affected res) field (plain.rows_affected res)
  delete_outcome-Discloses (err e) field plain h =
      inl (present_error-IsRedacted ctx e h (inl field))

  -- What the five helpers disclose.
  pub record AreDiscreet (db : Database) (key m : T) (label : Text)
      (selects : List (SelectQuery → SelectQuery)) (inserts : List (InsertQuery → InsertQuery))
      (updates : List (UpdateQuery → UpdateQuery)) (deletes : List (DeleteQuery → DeleteQuery))
      : Type 0 where
    pub of_get : Discloses ctx Nothing (get bun db key selects).1
    pub of_list : Discloses ctx Nothing (list bun db selects).1
    pub of_create : Discloses ctx (Conflicts label) (create bun db m label inserts).1
    pub of_update : Discloses ctx (Misses label) (update bun db m label updates).1
    pub of_delete : Discloses ctx Nothing (delete bun db key deletes).1

  -- While a field resolves, and where the database knows nothing of CustomError, a client is told nothing of
  -- an error that Get, List, Create, Update or Delete returns but that there was one: apart from the
  -- conflict of Create and the missing row of Update, each about the label, it is redacted and logged.
  pub helpers-AreDiscreet :
      (db : Database) (key m : T) (label : Text) (selects : List (SelectQuery → SelectQuery))
      (inserts : List (InsertQuery → InsertQuery)) (updates : List (UpdateQuery → UpdateQuery))
      (deletes : List (DeleteQuery → DeleteQuery))
      → ctx.field ≢ none
      → PlainBun bun
      → AreDiscreet db key m label selects inserts updates deletes
  unfolding get list create update delete
  helpers-AreDiscreet db key m label selects inserts updates deletes field plain = record {
    of_get = get_outcome-Discloses _ field (plain.scan_model _ key db);
    of_list = plain-Discloses Nothing _ field (plain.scan_models _ (slice []) db);
    of_create = create_outcome-Discloses label _ field plain (plain.exec_insert _ m db);
    of_update = update_outcome-Discloses label _ field plain (plain.exec_update _ m db);
    of_delete = delete_outcome-Discloses _ field plain (plain.exec_delete _ db);
  }
