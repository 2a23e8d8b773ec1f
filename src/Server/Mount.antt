-- ===== src/Server/Mount.antt =====
-- server/server.go: `Config`, `New`, `resolveTimeout`, `Mount` and `fiberContext`. gqlgen, Fiber and
-- net/http are parameters: what the calls on the gqlgen server are is the model's, what they do is not.
pub mod Order
pub mod Timeouts
pub mod Routes
pub mod Guards
use luima.Prelude.{
  ℕ, zero, suc, ◌*◌, Bool, true, false, List, [], ◌∷◌, ◌++◌, Option, none, some, Text, codes,
  text_eq, length, if◌then◌else◌,
}
use luima.Prelude.Int.{ℤ, pos, negsuc}
use luima.Server.RateLimit.{second}

-- A `context.Context`: its deadline, and its values, where none is nil.
pub record Context (Key : Type 0) (Value : Type 0) : Type 0 where
  pub deadline : Option ℕ
  pub value : Key → Option Value

-- What Mount works with: gqlgen's types and handler, a request of net/http with its context and with the
-- context that Fiber's adaptor left in it, and Fiber's adaptor and timeout middleware.
pub record Platform : Type 1 where
  pub Schema : Type 0
  pub Presenter : Type 0
  pub Transport : Type 0
  pub Other : Type 0
  pub Error : Type 0
  pub Key : Type 0
  pub Value : Type 0
  pub Request : Type 0
  pub Answer : Type 0
  pub FiberHandler : Type 0
  pub present_error : Presenter
  pub options_transport : Transport
  pub get_transport : Transport
  pub post_transport : Transport
  pub context_of : Request → Context Key Value
  pub with_context : Request → Context Key Value → Request
  pub local_context : Request → Option (Context Key Value)
  pub http_handler_with_context : (Request → Answer) → FiberHandler
  pub new_timeout : FiberHandler → ℤ → FiberHandler

-- An `http.Handler`.
abbrev pub HttpHandler : Platform → Type 0
HttpHandler p = p.Request → p.Answer

-- The extensions that Mount knows, with their limits.
pub data Extension : Type 0 where
  introspection_extension no_introspection_extension : Extension
  fixed_complexity_limit max_depth_extension : ℤ → Extension

-- A call on a `*handler.Server`.
pub data Call (p : Platform) : Type 0 where
  set_query_cache : ℤ → Call p
  use_extension : Extension → Call p
  set_error_presenter : p.Presenter → Call p
  add_transport : p.Transport → Call p
  other_call : p.Other → Call p

-- `check`, told by how it may end.
pub data CheckEnd (p : Platform) : Type 0 where
  answered : Option p.Error → CheckEnd p
  expired : CheckEnd p

-- `configure` is the calls that Configure makes, none where it is nil; `health_check` says whether there
-- is one. Durations are in nanoseconds.
pub record Config (p : Platform) : Type 0 where
  pub schema : Option p.Schema
  pub endpoint : Text
  pub playground : Text
  pub disable_playground : Bool
  pub playground_title : Text
  pub disable_introspection : Bool
  pub request_timeout : ℤ
  pub read_timeout : ℤ
  pub write_timeout : ℤ
  pub query_cache : ℤ
  pub complexity_limit : ℤ
  pub max_depth : ℤ
  pub error_presenter : Option p.Presenter
  pub http_middleware : List (HttpHandler p → HttpHandler p)
  pub configure : List (Call p)
  pub fiber_read_timeout : ℤ
  pub fiber_write_timeout : ℤ
  pub health : Text
  pub health_check : Bool

-- `resolveTimeout`.
unfoldable pub resolve_timeout : ℤ → ℤ → ℤ → ℤ
resolve_timeout (pos zero) (negsuc n) def = pos 0
resolve_timeout (pos zero) (pos zero) def = def
resolve_timeout (pos zero) (pos (suc n)) def = pos (suc n)
resolve_timeout from_fiber _ def = from_fiber

-- `if n := …; n >= 0 { if n == 0 { n = def } … }`: none where it is negative.
unfoldable pub unless_negative : ℤ → ℕ → Option ℤ
unless_negative (negsuc n) def = none
unless_negative (pos zero) def = some (pos def)
unless_negative (pos (suc n)) def = some (pos (suc n))

abbrev pub or_default : Text → Text → Text
or_default [] def = def
or_default s def = s

-- The last part of Mount: what a probe of the health route is answered.
unfoldable pub health_status : {p : Platform} → Bool → CheckEnd p → ℕ
health_status false _ = 200
health_status true (answered none) = 200
health_status true (answered (some e)) = 503
health_status true expired = 503

-- `fiberContext`: the deadline of Fiber's context, and its values before the locals.
unfoldable pub fiber_context :
    {Key : Type 0} {Value : Type 0} → Context Key Value → Context Key Value → Context Key Value
fiber_context fc locals = record {
  deadline = fc.deadline;
  value = λ key. elim (fc.value key) [ some v ↦ some v | none ↦ locals.value key ];
}

-- `mws[i](gql)`; the loop stays inside the slice.
abbrev pub apply_at : {H : Type 0} → ℕ → List (H → H) → H → H
apply_at i [] gql = gql
apply_at zero (mw ∷ mws) gql = mw gql
apply_at (suc i) (mw ∷ mws) gql = apply_at i mws gql

-- The loop over the middleware, with `i` rounds to go: the last one is applied first.
unfoldable pub wrap_from : {H : Type 0} → ℕ → List (H → H) → H → H
wrap_from zero mws gql = gql
wrap_from (suc i) mws gql = wrap_from i mws (apply_at i mws gql)

unfoldable pub wrap_all : {H : Type 0} → List (H → H) → H → H
wrap_all mws gql = wrap_from (length mws) mws gql

-- What answers on a route: a handler of Fiber, the playground's page, or the health probe.
pub data RouteHandler (p : Platform) : Type 0 where
  fiber_handler : p.FiberHandler → RouteHandler p
  playground_page : Text → Text → RouteHandler p
  health_probe : Bool → RouteHandler p

-- `r.All` and `r.Get`.
pub data Route (p : Platform) : Type 0 where
  all_methods get_only : Text → RouteHandler p → Route p

pub data Mounted (p : Platform) : Type 0 where
  panicked : Mounted p
  mounted : List (Route p) → Mounted p

module _ (p : Platform) where
  abbrev pub presenter_or : Option p.Presenter → p.Presenter
  presenter_or none = p.present_error
  presenter_or (some presenter) = presenter

  abbrev pub calls_if : Option ℤ → (ℤ → Call p) → List (Call p)
  calls_if none call = []
  calls_if (some n) call = call n ∷ []

  -- The calls on the gqlgen server, up to Configure.
  unfoldable pub default_calls : Config p → List (Call p)
  default_calls cfg =
      calls_if (unless_negative cfg.query_cache 1000) set_query_cache
      ++ (use_extension (
            if cfg.disable_introspection
            then no_introspection_extension
            else introspection_extension)
          ∷ (calls_if (unless_negative cfg.complexity_limit 1000)
                (λ n. use_extension (fixed_complexity_limit n))
              ++ (calls_if (unless_negative cfg.max_depth 15)
                    (λ n. use_extension (max_depth_extension n))
                  ++ (set_error_presenter (presenter_or cfg.error_presenter) ∷ []))))

  abbrev pub transport_calls : List (Call p)
  transport_calls =
      add_transport p.options_transport
      ∷ (add_transport p.get_transport ∷ (add_transport p.post_transport ∷ []))

  unfoldable pub server_calls : Config p → List (Call p)
  server_calls cfg = default_calls cfg ++ (cfg.configure ++ transport_calls)

  -- `withFiberContext`.
  unfoldable pub with_fiber_context : HttpHandler p → HttpHandler p
  with_fiber_context next r = elim (p.local_context r) [
    | some fc ↦ next (p.with_context r (fiber_context fc (p.context_of r)))
    | none ↦ next r
  ]

  -- gqlgen's handler, from the calls that were made on it.
  module _ (serve : p.Schema → List (Call p) → HttpHandler p) where
    unfoldable pub graphql_handler : Config p → p.Schema → p.FiberHandler
    graphql_handler cfg schema =
        let gql = wrap_all cfg.http_middleware (serve schema (server_calls cfg)) in
        let h = p.http_handler_with_context (with_fiber_context gql) in
        elim (unless_negative cfg.request_timeout (15 * second)) [
          | none ↦ h
          | some d ↦ p.new_timeout h d
        ]

    unfoldable pub playground_routes : Config p → Text → List (Route p)
    playground_routes cfg endpoint =
        if cfg.disable_playground
        then []
        else get_only (or_default cfg.playground (codes "/"))
            (playground_page (or_default cfg.playground_title (codes "graphql")) endpoint)
          ∷ []

    unfoldable pub health_routes : Config p → List (Route p)
    health_routes cfg =
        if text_eq cfg.health []
        then []
        else get_only cfg.health (health_probe cfg.health_check) ∷ []

    -- `Mount`: the routes that it registers, in order.
    unfoldable pub mount : Config p → Mounted p
    mount cfg = elim cfg.schema [
      | none ↦ panicked
      | some schema ↦
          let endpoint = or_default cfg.endpoint (codes "/graphql") in
          mounted (
            all_methods endpoint (fiber_handler (graphql_handler cfg schema))
            ∷ (playground_routes cfg endpoint ++ health_routes cfg))
    ]

-- The two timeouts of the `fiber.Config` that `New` builds.
unfoldable pub new_timeouts : {p : Platform} → Config p → ℤ × ℤ
new_timeouts cfg = (
  resolve_timeout cfg.fiber_read_timeout cfg.read_timeout (pos (10 * second)),
  resolve_timeout cfg.fiber_write_timeout cfg.write_timeout (pos (30 * second)),
)
