-- ===== src/Server/Mount/Routes.antt =====
-- server/server.go: the routes that `Mount` registers, what the health probe answers, and the context
-- that a resolver sees.
use luima.Prelude.{
  Bool, true, false, List, [], ◌∷◌, ◌++◌, none, some, ◌≡◌, refl, sym, ◌≢◌, ◌↔◌, ◌⊎◌, Text, codes,
  text_eq, text_eq-false_iff, All, All-append, Bool-cases, Option-cases, subst, inl, inr,
}
use luima.Server.Mount.{
  Platform, Config, Call, Context, HttpHandler, CheckEnd, answered, expired, Route, all_methods,
  get_only, panicked, mounted, fiber_handler, graphql_handler, or_default, fiber_context,
  with_fiber_context, playground_routes, health_routes, mount, health_status,
}

abbrev pub path_of : {p : Platform} → Route p → Text
path_of (all_methods path _) = path
path_of (get_only path _) = path

abbrev pub HasPath : {p : Platform} → Route p → Type 0
HasPath r = path_of r ≢ []

or_default-ne-nil : (s def : Text) → def ≢ [] → or_default s def ≢ []
or_default-ne-nil [] def h = h
or_default-ne-nil (c ∷ s) def h = λ e. cc

root : codes "/" ≢ []
unfolding codes
root = λ e. cc

graphql : codes "/graphql" ≢ []
unfolding codes
graphql = λ e. cc

-- The probe is answered 200 where there is no check and where it returned no error in time, and 503
-- where it returned one and where its deadline passed.
pub health_status_cases :
    {p : Platform} (check : Bool) (end : CheckEnd p)
    → ((health_status check end ≡ 200) × ((check ≡ false) ⊎ (end ≡ answered none)))
      ⊎ ((health_status check end ≡ 503) × (check ≡ true) × (end ≢ answered none))
unfolding health_status
health_status_cases false end = inl (refl, inl refl)
health_status_cases true (answered none) = inl (refl, inr refl)
health_status_cases true (answered (some e)) = inr (refl, refl, λ h. cc)
health_status_cases true expired = inr (refl, refl, λ h. cc)

-- What gqlgen and the middleware see of a request: the deadline of Fiber's context, its values, and for
-- any key it has none for, the value of the request's own context, which reads c.Locals.
pub record IsMerged (p : Platform) (fc : Context p.Key p.Value) (locals : Context p.Key p.Value)
    (seen : Context p.Key p.Value) : Type 0 where
  pub same_deadline : seen.deadline ≡ fc.deadline
  pub fiber_first : (k : p.Key) (v : p.Value) → fc.value k ≡ some v → seen.value k ≡ some v
  pub locals_next : (k : p.Key) → fc.value k ≡ none → seen.value k ≡ locals.value k

fiber_context-IsMerged :
    (p : Platform) (fc locals : Context p.Key p.Value)
    → IsMerged p fc locals (fiber_context fc locals)
unfolding fiber_context
fiber_context-IsMerged p fc locals = record {
  same_deadline = refl;
  fiber_first = λ k v h. rw h refl;
  locals_next = λ k h. rw h refl;
}

module _ (p : Platform)
    (context-with_context : (r : p.Request) (c : Context p.Key p.Value)
      → p.context_of (p.with_context r c) ≡ c) where
  -- The handler behind withFiberContext is called once, with a request whose context is Fiber's, and
  -- behind it the request's own, where the adaptor left Fiber's context, and else with the request as
  -- it came.
  pub with_fiber_context-merges :
      (next : HttpHandler p) (r : p.Request)
      → (r' : p.Request) × (with_fiber_context p next r ≡ next r')
        × (((fc : Context p.Key p.Value) × (p.local_context r ≡ some fc)
              × IsMerged p fc (p.context_of r) (p.context_of r'))
            ⊎ ((p.local_context r ≡ none) × (r' ≡ r)))
  unfolding with_fiber_context
  with_fiber_context-merges next r = elim (Option-cases (p.local_context r)) [
    | inl e ↦ (r, (rw (e, with_fiber_context) refl), inr (e, refl))
    | inr (fc, e) ↦
        let merged = fiber_context fc (p.context_of r) in
        (
          p.with_context r merged,
          (rw (e, with_fiber_context) refl),
          inl (
            fc,
            e,
            subst (λ c. IsMerged p fc (p.context_of r) c) (sym (context-with_context r merged))
                (fiber_context-IsMerged p fc (p.context_of r)),
          ),
        )
  ]

module _ (p : Platform) (serve : p.Schema → List (Call p) → HttpHandler p) where
  -- `Mount` panics exactly where the schema is nil.
  pub mount-panics_iff : (cfg : Config p) → (mount p serve cfg ≡ panicked) ↔ (cfg.schema ≡ none)
  unfolding mount
  mount-panics_iff cfg = elim (Option-cases cfg.schema) [
    | inl e ↦ ((λ _. e), λ _. rw e refl)
    | inr (schema, e) ↦ ((λ h. absurd (cc)), λ h. absurd (cc))
  ]

  playground_routes-HasPath :
      (cfg : Config p) (endpoint : Text) → All HasPath (playground_routes p serve cfg endpoint)
  unfolding playground_routes
  playground_routes-HasPath cfg endpoint = elim (Bool-cases cfg.disable_playground) [
    | inl e ↦ rw e tt
    | inr e ↦ rw e (or_default-ne-nil cfg.playground (codes "/") root, tt)
  ]

  health_routes-HasPath : (cfg : Config p) → All HasPath (health_routes p serve cfg)
  unfolding health_routes
  health_routes-HasPath cfg = elim (Bool-cases (text_eq cfg.health [])) [
    | inl e ↦ rw e tt
    | inr e ↦ rw e ((text_eq-false_iff cfg.health []).0 e, tt)
  ]

  -- No route is registered under an empty path.
  pub mount-HasPath :
      (cfg : Config p) (routes : List (Route p))
      → mount p serve cfg ≡ mounted routes
      → All HasPath routes
  unfolding mount
  mount-HasPath cfg routes h = elim (Option-cases cfg.schema) [
    | inl e ↦ absurd (cc)
    | inr (schema, e) ↦
        let endpoint = or_default cfg.endpoint (codes "/graphql") in
        let first = all_methods endpoint (fiber_handler (graphql_handler p serve cfg schema)) in
        let more = playground_routes p serve cfg endpoint ++ health_routes p serve cfg in
        let same : first ∷ more ≡ routes = cc in
        subst (λ rs. All HasPath rs) same
          (
            or_default-ne-nil cfg.endpoint (codes "/graphql") graphql,
            All-append HasPath _ _ (playground_routes-HasPath cfg endpoint)
                (health_routes-HasPath cfg),
          )
  ]
