-- ===== src/Server/MountTests.antt =====
-- server/server.go: an application mounted on a small platform, with numbers for what it brings.
use luima.Prelude.{
  ℕ, ◌+◌, ◌*◌, false, List, [], ◌∷◌, Option, none, some, ◌≡◌, refl, ◌⊎◌, codes, text_eq, ◌==◌,
  if◌then◌else◌,
}
use luima.Prelude.Int.{ℤ, pos, negsuc}
use luima.Server.RateLimit.{second}
use luima.Server.Mount.{
  Platform, Config, Call, Context, CheckEnd, expired, set_query_cache, use_extension,
  set_error_presenter, add_transport, introspection_extension, fixed_complexity_limit,
  max_depth_extension, resolve_timeout, unless_negative, new_timeouts, fiber_context, wrap_from,
  wrap_all, Route, all_methods, get_only, fiber_handler, playground_page, mounted, HttpHandler,
  default_calls, server_calls, with_fiber_context, graphql_handler, playground_routes,
  health_routes, mount, health_status,
}
use luima.Server.Mount.Order.{wrap_all-outermost_first, first_of, transports, server_transport}
use luima.Server.Mount.Routes.{IsMerged, with_fiber_context-merges}

-- A request is its own context, and the context that the adaptor left; a handler of Fiber is the numbers
-- of the timeouts around it.
abbrev pub numbers : Platform
numbers = record {
  Schema = ℕ;
  Presenter = ℕ;
  Transport = ℕ;
  Other = ℕ;
  Error = ℕ;
  Key = ℕ;
  Value = ℕ;
  Request = Context ℕ ℕ × Option (Context ℕ ℕ);
  Answer = List ℕ;
  FiberHandler = List ℤ;
  present_error = 0;
  options_transport = 1;
  get_transport = 2;
  post_transport = 3;
  context_of = λ r. r.0;
  with_context = λ r c. (c, r.1);
  local_context = λ r. r.1;
  http_handler_with_context = λ _. [];
  new_timeout = λ h d. d ∷ h;
}

abbrev pub serve : ℕ → List (Call numbers) → HttpHandler numbers
serve schema calls r = schema ∷ []

abbrev pub zero_config : Config numbers
zero_config = record {
  schema = some 7;
  endpoint = [];
  playground = [];
  disable_playground = false;
  playground_title = [];
  disable_introspection = false;
  request_timeout = pos 0;
  read_timeout = pos 0;
  write_timeout = pos 0;
  query_cache = pos 0;
  complexity_limit = pos 0;
  max_depth = pos 0;
  error_presenter = none;
  http_middleware = [];
  configure = [];
  fiber_read_timeout = pos 0;
  fiber_write_timeout = pos 0;
  health = [];
  health_check = false;
}

-- Configure adds a transport that outranks POST, and sets a presenter.
abbrev configured : Config numbers
configured = record zero_config {
  configure = add_transport 9 ∷ (set_error_presenter 5 ∷ []);
  read_timeout = negsuc 0;
}

runs : Unit {0}
unfolding resolve_timeout unless_negative new_timeouts fiber_context wrap_from wrap_all
    default_calls server_calls with_fiber_context graphql_handler playground_routes health_routes
    mount health_status text_eq codes
runs = tt

zero_calls :
    server_calls numbers zero_config
    ≡ set_query_cache (pos 1000)
      ∷ (use_extension introspection_extension
          ∷ (use_extension (fixed_complexity_limit (pos 1000))
              ∷ (use_extension (max_depth_extension (pos 15))
                  ∷ (set_error_presenter 0
                      ∷ (add_transport 1 ∷ (add_transport 2 ∷ (add_transport 3 ∷ [])))))))
unfolding runs
zero_calls = refl

abbrev zero_routes : List (Route numbers)
zero_routes =
    all_methods (codes "/graphql") (fiber_handler (pos (15 * second) ∷ []))
    ∷ (get_only (codes "/") (playground_page (codes "graphql") (codes "/graphql")) ∷ [])

zero_mounted : mount numbers serve zero_config ≡ mounted zero_routes
unfolding runs
zero_mounted = refl

zero_timeouts : new_timeouts zero_config ≡ (pos (10 * second), pos (30 * second))
unfolding runs
zero_timeouts = refl

wrap_all-outermost_first_example : wrap_all ((λ n. n * 2) ∷ ((λ n. n + 1) ∷ [])) 5 ≡ 12
wrap_all-outermost_first_example = wrap_all-outermost_first ((λ n. n * 2) ∷ ((λ n. n + 1) ∷ [])) 5

server_transport_example :
    first_of (λ t. t == 9) (transports numbers (server_calls numbers configured)) ≡ some 9
server_transport_example = server_transport numbers configured (λ t. t == 9)

abbrev late : CheckEnd numbers
late = expired

abbrev user_context : Context ℕ ℕ
user_context = record { deadline = some 15; value = λ k. if k == 0 then some 42 else none }

abbrev locals : Context ℕ ℕ
locals = record { deadline = none; value = λ k. some k }

abbrev request : Context ℕ ℕ × Option (Context ℕ ℕ)
request = (locals, some user_context)

abbrev sees : HttpHandler numbers
sees r = elim (r.0.value 0) [ none ↦ [] | some v ↦ v ∷ [] ]

with_fiber_context-merges_example :
    (r' : Context ℕ ℕ × Option (Context ℕ ℕ)) × (with_fiber_context numbers sees request ≡ sees r')
    × (((fc : Context ℕ ℕ) × (some user_context ≡ some fc) × IsMerged numbers fc locals r'.0)
        ⊎ ((some user_context ≡ none) × (r' ≡ request)))
with_fiber_context-merges_example = with_fiber_context-merges numbers (λ r c. refl) sees request
