-- ===== src/Crud/Keyed/Apart.antt =====
-- crud/crud.go over a table with a primary key: what requests about other keys leave alone, and what Get
-- reads of what Create and Update wrote.
use luima.Prelude.{
  true, false, List, [], ◌∷◌, Option, none, some, ◌≡◌, refl, ◌≢◌, ap, ◌∙◌, sym, All, Text,
  Bool-cases, inl, inr,
}
use luima.Luimaerr.Context.{Context}
use luima.Crud.{Bun}
use luima.Crud.Keyed.{
  Keyed, set_at, Request, gets, creates, updates, deletes, answered, call, run, model_of, Rows,
  created, updated, deleted, serve, replay,
}
use luima.Crud.Keyed.Refines.{call-Agrees, run-Agrees}

module _ {T : Type 0} {bun : Bun T} (table : Keyed bun) where
  open table use {K, key, same}

  -- A request about another key.
  abbrev pub IsApart : K → Request T → Type 0
  IsApart k req = k ≢ key (model_of table req)

  same-apart : (j k : K) → j ≢ k → same j k ≡ false
  same-apart j k ne = elim (Bool-cases (same j k)) [
    | inl e ↦ absurd (ne ((table.same_iff j k).0 e))
    | inr e ↦ e
  ]

  set_at-apart :
      (j k : K) (entry : Option T) (rows : Rows table) → j ≢ k → set_at same k entry rows j ≡ rows j
  set_at-apart j k entry rows ne = rw (same-apart j k ne) refl

  set_at-same : (k : K) (entry : Option T) (rows : Rows table) → set_at same k entry rows k ≡ entry
  set_at-same k entry rows = let e : same k k ≡ true = (table.same_iff k k).1 refl in rw e refl

  created-apart :
      (k : K) (m : T) (label : Text) (rows : Rows table) (o : Option T)
      → k ≢ key m
      → (created table m label rows o).0 k ≡ rows k
  created-apart k m label rows none ne = set_at-apart k (key m) _ rows ne
  created-apart k m label rows (some row) ne = refl

  updated-apart :
      (k : K) (m : T) (label : Text) (rows : Rows table) (o : Option T)
      → k ≢ key m
      → (updated table m label rows o).0 k ≡ rows k
  updated-apart k m label rows none ne = refl
  updated-apart k m label rows (some row) ne = set_at-apart k (key m) _ rows ne

  deleted-apart :
      (k : K) (m : T) (rows : Rows table) (o : Option T)
      → k ≢ key m
      → (deleted table m rows o).0 k ≡ rows k
  deleted-apart k m rows none ne = refl
  deleted-apart k m rows (some row) ne = set_at-apart k (key m) _ rows ne

  serve-apart :
      (k : K) (req : Request T) (rows : Rows table)
      → IsApart k req
      → (serve table req rows).0 k ≡ rows k
  unfolding serve
  serve-apart k (gets m) rows ne = refl
  serve-apart k (creates m label) rows ne = created-apart k m label rows _ ne
  serve-apart k (updates m label) rows ne = updated-apart k m label rows _ ne
  serve-apart k (deletes m) rows ne = deleted-apart k m rows _ ne

  replay-apart :
      (k : K) (reqs : List (Request T)) (rows : Rows table)
      → All (IsApart k) reqs
      → (replay table reqs rows).0 k ≡ rows k
  unfolding replay
  replay-apart k [] rows all = refl
  replay-apart k (req ∷ reqs) rows (ne, all) =
      replay-apart k reqs (serve table req rows).0 all ∙ serve-apart k req rows ne

  module _ (ctx : Context) where
    -- Where a model is written under a key, requests about other keys come, and Get asks for the key: the
    -- client is answered with the entry that was written.
    answered-after :
        (m : T) (entry : Option T) (reqs : List (Request T)) (db : bun.Database)
        → table.rows db (key m) ≡ entry
        → All (IsApart (key m)) reqs
        → (call bun ctx (gets m) (run bun ctx reqs db).0).1 ≡ answered entry
    unfolding serve
    answered-after m entry reqs db e all =
        (call-Agrees bun table ctx (gets m) (run bun ctx reqs db).0).1
        ∙ ap answered (
            ap (λ rows. rows (key m)) (run-Agrees bun table ctx reqs db).0
            ∙ (replay-apart (key m) reqs (table.rows db) all ∙ e))

    -- What Create stored under a key that was free is what Get answers with, for any model of that key,
    -- whatever requests about other keys come between the two.
    pub gets-creates :
        (m m' : T) (label : Text) (reqs : List (Request T)) (db : bun.Database)
        → key m ≡ key m'
        → table.rows db (key m) ≡ none
        → All (IsApart (key m')) reqs
        → (call bun ctx (gets m') (run bun ctx reqs (call bun ctx (creates m label) db).0).0).1
          ≡ answered (some (table.stored m))
    unfolding serve
    gets-creates m m' label reqs db same_key free all =
        answered-after m' (some (table.stored m)) reqs (call bun ctx (creates m label) db).0
          (ap (λ rows. rows (key m')) (call-Agrees bun table ctx (creates m label) db).0
            ∙ (ap (λ o. (created table m label (table.rows db) o).0 (key m')) free
                ∙ (ap (set_at same (key m) (some (table.stored m)) (table.rows db)) (sym same_key)
                    ∙ set_at-same (key m) (some (table.stored m)) (table.rows db))))
          all
