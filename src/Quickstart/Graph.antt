-- ===== src/Quickstart/Graph.antt =====
-- examples/quickstart/graph/: the model, `newUser` and the five resolvers. What gqlgen generates of the
-- schema calls them, and is not modelled.
pub mod Reads
use luima.Prelude.{ℕ, Bool, List, [], ◌∷◌, ◌++◌, Option, Text, codes}
use luima.Crud.{Bun, Slice, nil_slice, Result}
use luima.Root.{get, list, create, update, delete}

-- `model.User`.
pub record User : Type 0 where
  pub personal_id : Text
  pub name : Text
  pub company : Text
  pub projects : Slice Text

-- `model.UserInput`.
pub record UserInput : Type 0 where
  pub name : Text
  pub company : Text
  pub projects : Slice Text

unfoldable pub new_user : Text → UserInput → User
new_user personal_id input = record {
  personal_id = personal_id;
  name = input.name;
  company = input.company;
  projects = input.projects;
}

-- A model with the primary key only.
unfoldable pub user_key : Text → User
user_key personal_id = record {
  personal_id = personal_id;
  name = [];
  company = [];
  projects = nil_slice;
}

abbrev pub user_label : Text → Text
user_label personal_id = codes "user " ++ personal_id

module _ (bun : Bun User) where
  open bun use {Database, SelectQuery}

  unfoldable pub create_user : Database → Text → UserInput → Database × Result (Option User)
  create_user db personal_id input =
      create bun db (new_user personal_id input) (user_label personal_id) []

  unfoldable pub update_user : Database → Text → UserInput → Database × Result User
  update_user db personal_id input =
      update bun db (new_user personal_id input) (user_label personal_id) []

  unfoldable pub delete_user : Database → Text → Database × Result Bool
  delete_user db personal_id = delete bun db (user_key personal_id) []

  unfoldable pub user : Database → Text → Database × Result (Option User)
  user db personal_id = get bun db (user_key personal_id) []

  -- bun's `Order` and `Limit`.
  unfoldable pub users :
      (Text → SelectQuery → SelectQuery)
      → (ℕ → SelectQuery → SelectQuery)
      → Database
      → Database × Result (Slice User)
  users order limit db = list bun db ((λ q. limit 100 (order (codes "personal_id") q)) ∷ [])
