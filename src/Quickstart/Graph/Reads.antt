-- ===== src/Quickstart/Graph/Reads.antt =====
-- examples/quickstart/graph/: what the resolver `user` reads of what the others wrote.
use luima.Prelude.{List, none, some, ◌≡◌, refl, ap, ◌∙◌, All, Text}
use luima.Luimaerr.Context.{Context}
use luima.Crud.{Bun}
use luima.Crud.Keyed.{Keyed, Request, answered, reply, call, run}
use luima.Crud.Keyed.Apart.{IsApart, gets-creates}
use luima.Root.{get, create}
use luima.Quickstart.Graph.{User, UserInput, new_user, user_key, user_label, create_user, user}

module _ (bun : Bun User) (table : Keyed bun)
    (keyed : (u v : User) → u.personal_id ≡ v.personal_id → table.key u ≡ table.key v)
    (ctx : Context) where
  -- Over a table that is keyed by personal_id: where no user has an id, what is stored for the id and each
  -- field of the input of createUser is what a client is answered by user, whatever requests about other
  -- users come between the two.
  pub user-create_user :
      (personal_id : Text) (input : UserInput) (reqs : List (Request User)) (db : bun.Database)
      → table.rows db (table.key (user_key personal_id)) ≡ none
      → All (IsApart table (table.key (user_key personal_id))) reqs
      → reply bun ctx answered
          (user bun (run bun ctx reqs (create_user bun db personal_id input).0).0 personal_id).1
        ≡ answered (
            some (
              table.stored (record {
                personal_id = personal_id;
                name = input.name;
                company = input.company;
                projects = input.projects;
              })))
  unfolding create_user user get create new_user user_key call
  user-create_user personal_id input reqs db free all =
      let same : table.key (new_user personal_id input) ≡ table.key (user_key personal_id) =
        keyed (new_user personal_id input) (user_key personal_id) refl in
      gets-creates table ctx (new_user personal_id input) (user_key personal_id)
        (user_label personal_id) reqs db same (ap (table.rows db) same ∙ free) all
