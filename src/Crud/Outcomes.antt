-- ===== src/Crud/Outcomes.antt =====
-- crud/crud.go: Create and Update on every answer of the database, and what a client is told.
use luima.Prelude.{
  zero, suc, ◌++◌, true, false, List, [], none, some, ◌≡◌, refl, ◌≢◌, ◌∙◌, Text, codes, text_eq,
  text_eq_iff, Bool-cases, ◌⊎◌, inl, inr,
}
use luima.Prelude.Int.{ℤ, pos, negsuc}
use luima.Luimaerr.Errors.{GoError, as_type, is_custom, sql_state}
use luima.Luimaerr.Context.{Context}
use luima.Luimaerr.Present.{present_error, code_extension, heard}
use luima.Luimaerr.Chain.{InChain}
use luima.Luimaerr.Redaction.{IsRedacted, present_error-IsRedacted}
use luima.Crud.{
  Result, ok, err, Bun, apply_all, is_zero, create, create_outcome, create_count, conflict, update,
  update_outcome, update_count, not_found,
}

text_ne : (s t : Text) → s ≢ t → text_eq s t ≡ false
text_ne s t ne = elim (Bool-cases (text_eq s t)) [
  | inl e ↦ absurd (ne ((text_eq_iff s t).0 e))
  | inr e ↦ e
]

is_zero_cases : (n : ℤ) → ((n ≡ pos 0) × (is_zero n ≡ true)) ⊎ ((n ≢ pos 0) × (is_zero n ≡ false))
is_zero_cases (pos zero) = inl (refl, refl)
is_zero_cases (pos (suc n)) = inr (cc, refl)
is_zero_cases (negsuc n) = inr (cc, refl)

abbrev pub unique_violation : Text
unique_violation = codes "23505"

-- What a client is told by an error that carries a message and a code for it.
abbrev pub Tells : GoError → Text → Text → Type 0
Tells e message code =
    (ctx : Context)
    → ((present_error ctx e).response.message ≡ message)
      × ((present_error ctx e).response.extensions ≡ code_extension code)
      × ((present_error ctx e).log ≡ [])

module _ {T : Type 0} (bun : Bun T) where
  open bun use {Database, SelectQuery, InsertQuery, UpdateQuery, DeleteQuery, SqlResult}

  -- The statement that `Create` runs, and its answer.
  abbrev pub inserted :
      Database → T → List (InsertQuery → InsertQuery) → Database × Result (SqlResult × T)
  inserted db m opts =
      bun.exec_insert (apply_all opts (bun.insert_returning (codes "*") (bun.insert_model m))) m db

  pub conflict-Tells :
      (label : Text) (e : GoError)
      → Tells (conflict bun label e) (label ++ codes " already exists") (codes "CONFLICT")
  unfolding conflict present_error heard as_type codes
  conflict-Tells label e ctx = (refl, refl, refl)

  conflict-state : (label : Text) (e : GoError) → sql_state (conflict bun label e) ≡ sql_state e
  unfolding conflict sql_state as_type
  conflict-state label e = refl

  pub not_found-Tells :
      (label : Text) → Tells (not_found bun label) (label ++ codes " not found") (codes "NOT_FOUND")
  unfolding not_found present_error heard as_type codes
  not_found-Tells label ctx = (refl, refl, refl)

  -- A unique violation reaches the client as a conflict about the label, with the SQLSTATE kept in the
  -- chain of the error.
  pub create_conflict :
      (db : Database) (m : T) (label : Text) (opts : List (InsertQuery → InsertQuery)) (e : GoError)
      → (inserted db m opts).1 ≡ err e
      → sql_state e ≡ unique_violation
      → (x : GoError) × ((create bun db m label opts).1 ≡ err x)
        × Tells x (label ++ codes " already exists") (codes "CONFLICT")
        × (sql_state x ≡ unique_violation)
  unfolding create create_outcome
  create_conflict db m label opts e failed state =
      let same : text_eq (sql_state e) unique_violation ≡ true = (text_eq_iff _ _).1 state in
      (
        conflict bun label e,
        rw (failed, create_outcome, same),
        conflict-Tells label e,
        conflict-state label e ∙ state,
      )

  -- Any other error of the insert reaches the client redacted, where it holds no CustomError, and is
  -- logged.
  pub create-IsRedacted :
      (db : Database) (m : T) (label : Text) (opts : List (InsertQuery → InsertQuery)) (e : GoError)
      (ctx : Context)
      → (inserted db m opts).1 ≡ err e
      → sql_state e ≢ unique_violation
      → ((x : GoError) → InChain x e → is_custom x ≡ none)
      → ctx.field ≢ none
      → ((create bun db m label opts).1 ≡ err e) × IsRedacted e (present_error ctx e)
  unfolding create create_outcome
  create-IsRedacted db m label opts e ctx failed state none_in field =
      let differs : text_eq (sql_state e) unique_violation ≡ false =
        text_ne (sql_state e) unique_violation state in
      (rw (failed, create_outcome, differs), present_error-IsRedacted ctx e none_in (inl field))

  -- An insert that did not fail answers with the stored row, or with nothing where no row was affected.
  pub create_stored :
      (db : Database) (m row : T) (label : Text) (opts : List (InsertQuery → InsertQuery))
      (res : SqlResult) (n : ℤ)
      → (inserted db m opts).1 ≡ ok (res, row)
      → bun.rows_affected res ≡ ok n
      → ((n ≡ pos 0) × ((create bun db m label opts).1 ≡ ok none))
        ⊎ ((n ≢ pos 0) × ((create bun db m label opts).1 ≡ ok (some row)))
  unfolding create create_outcome create_count
  create_stored db m row label opts res n done rows = elim (is_zero_cases n) [
    | inl (z, b) ↦ inl (z, rw (done, create_outcome, rows, create_count, b))
    | inr (z, b) ↦ inr (z, rw (done, create_outcome, rows, create_count, b))
  ]

  abbrev pub updated :
      Database → T → List (UpdateQuery → UpdateQuery) → Database × Result (SqlResult × T)
  updated db m opts =
      bun.exec_update
        (apply_all opts
          (bun.update_returning (codes "*") (bun.update_where_pk (bun.update_model m))))
        m db

  -- An update that did not fail answers with the stored row, or tells the client that the label was not
  -- found where no row was affected.
  pub update_stored :
      (db : Database) (m row : T) (label : Text) (opts : List (UpdateQuery → UpdateQuery))
      (res : SqlResult) (n : ℤ)
      → (updated db m opts).1 ≡ ok (res, row)
      → bun.rows_affected res ≡ ok n
      → ((n ≡ pos 0)
          × ((x : GoError) × ((update bun db m label opts).1 ≡ err x)
              × Tells x (label ++ codes " not found") (codes "NOT_FOUND")))
        ⊎ ((n ≢ pos 0) × ((update bun db m label opts).1 ≡ ok row))
  unfolding update update_outcome update_count
  update_stored db m row label opts res n done rows = elim (is_zero_cases n) [
    | inl (z, b) ↦ inl (
      z,
      (
        not_found bun label,
        rw (done, update_outcome, rows, update_count, b),
        not_found-Tells label,
      ),
    )
    | inr (z, b) ↦ inr (z, rw (done, update_outcome, rows, update_count, b))
  ]
