-- ===== src/Crud/KeyedTests.antt =====
-- crud/crud.go over a rows_by_key in memory, whose rows are a key and a value.
use luima.Prelude.{ℕ, true, List, [], ◌∷◌, ◌++◌, none, some, ◌≡◌, refl, Text, codes, text_eq}
use luima.Luimaerr.Context.{Context}
use luima.Crud.Memory.{memory, table}
use luima.Crud.Keyed.{
  Keyed, Request, gets, creates, updates, deletes, Reply, answered, said, told, run, serve, replay,
}
use luima.Crud.Keyed.Refines.{run-Agrees}

-- A row is a key and a value.
abbrev Row : Type 0
Row = Text × ℕ

abbrev key : Row → Text
key row = row.0

abbrev seven : ℕ → Row
seven value = (codes "7", value)

abbrev rows_by_key : Keyed (memory key (seven 0))
rows_by_key = table key (seven 0)

abbrev resolving : Context
resolving = record { path = []; field = some none }

abbrev label : Text
label = codes "user 7"

-- A create, another of the same key, an update, a read, a delete, and an update behind it.
abbrev requests : List (Request Row)
requests =
    creates (seven 1) label
    ∷ (creates (seven 2) label
        ∷ (updates (seven 3) label
            ∷ (gets (seven 0) ∷ (deletes (seven 0) ∷ (updates (seven 4) label ∷ [])))))

abbrev replies : List (Reply Row)
replies =
    answered (some (seven 1))
    ∷ (told (label ++ codes " already exists")
        ∷ (answered (some (seven 3))
            ∷ (answered (some (seven 3))
                ∷ (said true ∷ (told (label ++ codes " not found") ∷ [])))))

replay_example : (replay rows_by_key requests (λ k. none)).1 ≡ replies
unfolding replay serve text_eq codes
replay_example = refl

run-Agrees_example :
    ((run (memory key (seven 0)) resolving requests (λ k. none)).0
      ≡ (replay rows_by_key requests (λ k. none)).0)
    × ((run (memory key (seven 0)) resolving requests (λ k. none)).1
        ≡ (replay rows_by_key requests (λ k. none)).1)
run-Agrees_example = run-Agrees (memory key (seven 0)) rows_by_key resolving requests (λ k. none)
