-- ===== src/Crud/Keyed/Refines.antt =====
-- crud/crud.go: the helpers over a table with a primary key do what the calls on a map of rows do.
use luima.Prelude.{
  List, [], ◌∷◌, Option, none, some, ◌≡◌, refl, ap, ◌∙◌, Option-cases, inl, inr, Text,
}
use luima.Luimaerr.Context.{Context}
use luima.Luimaerr.Errors.{GoError, no_rows, as_type, is_no_rows}
use luima.Luimaerr.Chain.{InChain, as_type_complete}
use luima.Crud.{
  ok, err, Bun, apply_all, get, get_outcome, create, create_outcome, create_count, update,
  update_outcome, update_count, delete, delete_outcome, delete_count,
}
use luima.Crud.Outcomes.{create_conflict, not_found-Tells}
use luima.Crud.Keyed.{
  Keyed, Request, gets, creates, updates, deletes, Reply, answered, told, reply, call, run, Rows,
  created, updated, deleted, serve, replay,
}

module _ {T : Type 0} (bun : Bun T) (table : Keyed bun) (ctx : Context) where
  abbrev pub Agrees : bun.Database × Reply T → Rows table × Reply T → Type 0
  Agrees x y = (table.rows x.0 ≡ y.0) × (x.1 ≡ y.1)

  get_outcome-absent : (e : GoError) → InChain no_rows e → get_outcome bun (err e) ≡ ok none
  unfolding get_outcome
  get_outcome-absent e i = elim (Option-cases (as_type is_no_rows e)) [
    | inl q ↦ absurd (cc (as_type_complete is_no_rows i q))
    | inr (u, q) ↦ rw (q, get_outcome) refl
  ]

  gets-Agrees :
      (m : T) (db : bun.Database) (o : Option T)
      → table.rows db (table.key m) ≡ o
      → Agrees (call bun ctx (gets m) db) (table.rows db, answered o)
  unfolding call get apply_all get_outcome
  gets-Agrees m db none e =
      let (kept, (error, failed, i)) = table.selects_none m db e in
      (kept, rw (failed, get_outcome-absent error i) refl)
  gets-Agrees m db (some row) e =
      let (kept, done) = table.selects m row db e in (kept, rw (done, get_outcome) refl)

  creates-Agrees :
      (m : T) (label : Text) (db : bun.Database) (o : Option T)
      → table.rows db (table.key m) ≡ o
      → Agrees (call bun ctx (creates m label) db) (created table m label (table.rows db) o)
  unfolding call create apply_all create_outcome create_count
  creates-Agrees m label db none e =
      let (wrote, (res, done, n)) = table.inserts m db e in
      (wrote, rw (done, create_outcome, n, create_count) refl)
  creates-Agrees m label db (some row) e =
      let (kept, (error, failed, state)) = table.inserts_none m row db e in
      let (x, same, tells, _) = create_conflict bun db m label [] error failed state in
      (kept, ap (reply bun ctx answered) same ∙ ap told (tells ctx).0)

  updates-Agrees :
      (m : T) (label : Text) (db : bun.Database) (o : Option T)
      → table.rows db (table.key m) ≡ o
      → Agrees (call bun ctx (updates m label) db) (updated table m label (table.rows db) o)
  unfolding call update apply_all update_outcome update_count
  updates-Agrees m label db none e =
      let (kept, (res, row, done, n)) = table.updates_none m db e in
      (kept, rw (done, update_outcome, n, update_count) (ap told (not_found-Tells bun label ctx).0))
  updates-Agrees m label db (some row) e =
      let (wrote, (res, done, n)) = table.updates m row db e in
      (wrote, rw (done, update_outcome, n, update_count) refl)

  deletes-Agrees :
      (m : T) (db : bun.Database) (o : Option T)
      → table.rows db (table.key m) ≡ o
      → Agrees (call bun ctx (deletes m) db) (deleted table m (table.rows db) o)
  unfolding call delete apply_all delete_outcome delete_count
  deletes-Agrees m db none e =
      let (kept, (res, done, n)) = table.deletes_none m db e in
      (kept, rw (done, delete_outcome, n, delete_count) refl)
  deletes-Agrees m db (some row) e =
      let (wrote, (res, done, n)) = table.deletes m row db e in
      (wrote, rw (done, delete_outcome, n, delete_count) refl)

  pub call-Agrees :
      (req : Request T) (db : bun.Database)
      → Agrees (call bun ctx req db) (serve table req (table.rows db))
  unfolding serve
  call-Agrees (gets m) db = gets-Agrees m db _ refl
  call-Agrees (creates m label) db = creates-Agrees m label db _ refl
  call-Agrees (updates m label) db = updates-Agrees m label db _ refl
  call-Agrees (deletes m) db = deletes-Agrees m db _ refl

  -- Over a table that answers each statement by whether there is a row under the key of its model: any
  -- sequence of Get, Create, Update and Delete leaves the rows, and gives a client the rows, the Booleans and
  -- the messages, that the same calls on a map of rows do, where Create of a key that is there and Update of
  -- one that is not change nothing and tell the client so about the label.
  pub run-Agrees :
      (reqs : List (Request T)) (db : bun.Database)
      → (table.rows (run bun ctx reqs db).0 ≡ (replay table reqs (table.rows db)).0)
        × ((run bun ctx reqs db).1 ≡ (replay table reqs (table.rows db)).1)
  unfolding run replay
  run-Agrees [] db = (refl, refl)
  run-Agrees (req ∷ reqs) db =
      let (rows, first) = call-Agrees req db in
      let (rows', rest) = run-Agrees reqs (call bun ctx req db).0 in
      (
        rows' ∙ ap (λ at. (replay table reqs at).0) rows,
        ap (λ r. r ∷ (run bun ctx reqs (call bun ctx req db).0).1) first
            ∙ ap (◌∷◌ (serve table req (table.rows db)).1)
                (rest ∙ ap (λ at. (replay table reqs at).1) rows),
      )
