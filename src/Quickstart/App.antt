-- ===== src/Quickstart/App.antt =====
-- examples/quickstart/main.go: the middleware, the configuration and `main`. Connecting is ConnectWith over the
-- pool of Db, and what Run serves with a configuration is a parameter of main.

pub mod Stack
pub mod Ends
use luima.Prelude.{
  ℕ, ◌*◌, Bool, true, not, List, [], ◌∷◌, Option, none, some, Text, codes, text_eq, if◌then◌else◌,
}
use luima.Prelude.Int.{ℤ, pos}
use luima.Server.Http.{HttpRequest, Header, Response, Handler, header_get, header_set}
use luima.Server.RateLimit.{Limiter, second}
use luima.Server.Cors.{CorsConfig}
use luima.Server.Mount.{Platform, Config, HttpHandler, other_call, wrap_all}
use luima.Db.{Url, Driver, PgConfig, Pool, Opened, ok, failed, Failure}
use luima.Root.{cors, rate_limit, connect_with, statement_timeout}

abbrev pub request_id_name : Text
request_id_name = codes "X-Request-Id"

-- A handler, and what the context of its request has under `graph.RequestIDKey{}`.
abbrev pub ContextHandler : Type 0
ContextHandler = Option Text → Handler

-- Middleware that hands the context on as it is.
abbrev pub passing : (Handler → Handler) → ContextHandler → ContextHandler
passing mw next id = mw (next id)

-- The custom middleware; `fresh` is the clock to base 36.
unfoldable pub request_id : Text → ContextHandler → ContextHandler
request_id fresh next _ r h =
    let sent = header_get request_id_name r.headers in
    let id = if text_eq sent [] then fresh else sent in
    next (some id) r (header_set request_id_name id h)

abbrev pub minute : ℕ
minute = 60 * second

abbrev pub local_origin : Text
local_origin = codes "http://localhost:3000"

abbrev pub app_cors : CorsConfig
app_cors = record { origins = local_origin ∷ []; headers = []; max_age = pos 0 }

-- What the limiter's handler writes at a time, where its closure is in a state.
unfoldable pub limited : ℕ → Limiter → Handler → Handler
limited now l next r h = (rate_limit 100 minute none next now r h l).1

-- `HTTPMiddleware`, for a request at a time.
unfoldable pub app_middleware : ℕ → Text → Limiter → List (ContextHandler → ContextHandler)
app_middleware now fresh l =
    passing (limited now l) ∷ (passing (cors app_cors) ∷ (request_id fresh ∷ []))

-- What a request is answered behind the middleware, as Mount wraps it.
unfoldable pub app_answer : ContextHandler → ℕ → Text → Limiter → Handler
app_answer gql now fresh l = wrap_all (app_middleware now fresh l) gql none

-- The `luima.Config`. `suggestions` is `SetDisableSuggestion`.
module _ (p : Platform) (suggestions : Bool → p.Other) where
  unfoldable pub app_config : p.Schema → List (HttpHandler p → HttpHandler p) → Bool → Config p
  app_config schema middleware dev = record {
    schema = some schema;
    endpoint = [];
    playground = [];
    disable_playground = not dev;
    playground_title = [];
    disable_introspection = not dev;
    request_timeout = pos 0;
    read_timeout = pos 0;
    write_timeout = pos 0;
    query_cache = pos 0;
    complexity_limit = pos 0;
    max_depth = pos 0;
    error_presenter = none;
    http_middleware = middleware;
    configure = other_call (suggestions (not dev)) ∷ [];
    fiber_read_timeout = pos 0;
    fiber_write_timeout = pos 0;
    health = codes "/healthz";
    health_check = true;
  }

-- How main ends: by log.Fatal, which runs no deferred call, or at its end, with the error that it logs.
pub data MainEnd (E : Type 0) : Type 0 where
  fatal : Failure → MainEnd E
  finished : Option E → MainEnd E

-- `serve` is Run with the configuration over a pool.
module _ (p : Pool) (num_cpu : ℕ) (parse : Text → Option Url) (driver : Driver) (def : PgConfig)
    (env : Text) (E : Type 0) (serve : Bool → p.Db → p.World → p.World × Option E) where
  -- main behind ConnectWith: the deferred Close is the last thing that it does.
  unfoldable pub main_with : Bool → p.World × Opened p.Db → p.World × MainEnd E
  main_with dev (w, failed e) = (w, fatal e)
  main_with dev (w, ok db) = let (w', r) = serve dev db w in (p.close db w', finished r)

  -- `LUIMA_DEV` and `DATABASE_URL`.
  unfoldable pub main : Text → Text → p.World → p.World × MainEnd E
  main luima_dev url w = main_with (not (text_eq luima_dev [])) (
      connect_with p num_cpu parse driver def env url (some (statement_timeout (pos (5 * second))))
        w)
