-- ===== src/Quickstart/Tests.antt =====
-- examples/quickstart/: its resolvers over a table in memory, a request behind its middleware, and its main
-- over a server that runs and ends.
use luima.Prelude.{
  ℕ, ◌*◌, Bool, true, false, List, [], ◌∷◌, Option, none, some, ◌≡◌, ◌≢◌, refl, ◌⊎◌, Text, codes,
  text_eq, text_eq-false_iff, if◌then◌else◌,
}
use luima.Prelude.Int.{pos}
use luima.Luimaerr.Context.{Context}
use luima.Crud.{slice}
use luima.Crud.Keyed.{Keyed, Request, creates, deletes, answered, reply, run}
use luima.Crud.Memory.{memory, table}
use luima.Quickstart.Graph.{User, UserInput, new_user, user_key, user_label, create_user, user}
use luima.Quickstart.Graph.Reads.{user-create_user}
use luima.Server.Http.{HttpRequest, Header, header_values}
use luima.Server.RateLimit.{new_limiter, take_turn, second, roll, charge, bump, count}
use luima.Server.Cors.{allow_origin_name}
use luima.Db.Tests.{defaults, parses, driver, one_pool, open_now}
use luima.Server.Mount.{
  mount, mounted, all_methods, get_only, fiber_handler, health_probe, graphql_handler,
  playground_routes, health_routes, unless_negative,
}
use luima.Server.MountTests.{numbers, serve}
use luima.Quickstart.App.{app_config, ContextHandler, minute, app_answer, main}
use luima.Quickstart.App.Stack.{IsServed, app_answer_cases}
use luima.Quickstart.App.Ends.{Leaves, main-Leaves}

abbrev resolving : Context
resolving = record { path = []; field = some none }

abbrev ada : UserInput
ada = record { name = codes "Ada"; company = codes "Engines"; projects = slice [] }

abbrev by_id : User → Text
by_id u = u.personal_id

abbrev users_table : Keyed (memory by_id (user_key []))
users_table = table by_id (user_key [])

-- Another user is created and deleted between the two.
abbrev between : List (Request User)
between =
    creates (new_user (codes "8") ada) (user_label (codes "8"))
    ∷ (deletes (user_key (codes "8")) ∷ [])

ids_differ : text_eq (codes "7") (codes "8") ≡ false
unfolding text_eq codes
ids_differ = refl

other_id : codes "7" ≢ codes "8"
other_id = (text_eq-false_iff (codes "7") (codes "8")).0 ids_differ

user-create_user_example :
    reply
      (memory by_id (user_key []))
      resolving
      answered
      (user
        (memory by_id (user_key []))
        (run
          (memory by_id (user_key []))
          resolving
          between
          (create_user (memory by_id (user_key [])) (λ k. none) (codes "7") ada).0).0
        (codes "7")).1
    ≡ answered (some (new_user (codes "7") ada))
unfolding new_user user_key
user-create_user_example =
    user-create_user (memory by_id (user_key [])) users_table (λ u v e. e) resolving (codes "7") ada
      between (λ k. none) refl (other_id, (other_id, tt))

-- The handler behind the middleware, which tells the request id that it finds in the context.
abbrev tells_id : ContextHandler
tells_id none r h = record { status = 500; header = h; body = [] }
tells_id (some id) r h = record { status = 200; header = h; body = id }

abbrev browser : HttpRequest
browser = record {
  method = codes "POST";
  remote_addr = codes "10.0.0.1:5000";
  headers =
      (codes "Origin", codes "http://localhost:3000") ∷ ((codes "X-Request-Id", codes "abc") ∷ []);
}

runs : Unit {0}
unfolding take_turn roll charge bump count text_eq codes
runs = tt

first_passes : (take_turn 100 minute second browser.remote_addr new_limiter).1 ≡ false
unfolding runs
first_passes = refl

app_answer_cases_example :
    (((take_turn 100 minute second browser.remote_addr new_limiter).1 ≡ true)
      × ((app_answer tells_id second (codes "k3") new_limiter browser []).status ≡ 429)
      × ((other : ContextHandler)
          → app_answer other second (codes "k3") new_limiter browser []
            ≡ app_answer tells_id second (codes "k3") new_limiter browser [])
      × (header_values allow_origin_name
            (app_answer tells_id second (codes "k3") new_limiter browser []).header
          ≡ header_values allow_origin_name []))
    ⊎ (((take_turn 100 minute second browser.remote_addr new_limiter).1 ≡ false)
        × ((id : Text) × (g : Header) × (app_answer tells_id second
                (codes "k3")
                new_limiter
                browser
                []
              ≡ record { status = 200; header = g; body = id })
            × IsServed browser (codes "k3") [] id g))
app_answer_cases_example = app_answer_cases tells_id second (codes "k3") new_limiter browser []

abbrev serves : Bool → Unit {0} → Bool → Bool × Option ℕ
serves dev db w = (w, none)

main-Leaves_example :
    Leaves one_pool 8 parses driver defaults
      (codes "secret")
      open_now
      (λ db w. refl)
      ℕ
      serves
      false
      (codes "postgres://app@db/app")
      false
      (main one_pool 8 parses driver defaults
        (codes "secret")
        ℕ
        serves
        []
        (codes "postgres://app@db/app")
        false)
unfolding text_eq
main-Leaves_example =
    main-Leaves one_pool 8 parses driver defaults (codes "secret") open_now (λ db w. refl) ℕ serves
      [] (codes "postgres://app@db/app") false

-- Without LUIMA_DEV there is no playground.
public_routes :
    mount numbers serve (app_config numbers (λ b. if b then 1 else 0) 7 [] false)
    ≡ mounted (
        all_methods (codes "/graphql") (fiber_handler (pos (15 * second) ∷ []))
        ∷ (get_only (codes "/healthz") (health_probe true) ∷ []))
unfolding mount app_config graphql_handler playground_routes health_routes unless_negative text_eq
    codes
public_routes = refl
