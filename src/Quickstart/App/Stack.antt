-- ===== src/Quickstart/App/Stack.antt =====
-- examples/quickstart/main.go: what a request is answered behind the three middlewares.
use luima.Prelude.{
  ℕ, ◌-◌, true, false, [], ◌∷◌, none, some, ◌≡◌, refl, ◌≢◌, ◌∙◌, ap, sym, ◌⊎◌, inl, inr, Text,
  codes, text_eq, text_eq_iff, text_eq-false_iff, has, Bool-cases,
}
use luima.Server.Http.{
  HttpRequest, Header, Response, header_get, header_values, header_set, http_error,
}
use luima.Server.Http.Values.{header_values-set, header_values-del}
use luima.Server.RateLimit.{Limiter, take_turn, refuse, rate_limit}
use luima.Server.Cors.{allow_origin_name, cors}
use luima.Server.Cors.Grants.{IsGranted, cors-IsGranted}
use luima.Server.Mount.Order.{wrap_all-outermost_first}
use luima.Root.{rate_limit as root_rate_limit, cors as root_cors}
use luima.Quickstart.App.{
  ContextHandler, request_id_name, request_id, minute, local_origin, app_cors, limited,
  app_middleware, app_answer,
}

-- The request id: the one that the request sends, or a fresh one where it sends none.
abbrev pub IsRequestId : HttpRequest → Text → Text → Type 0
IsRequestId r fresh id =
    let sent = header_get request_id_name r.headers in
    ((sent ≢ []) × (id ≡ sent)) ⊎ ((sent ≡ []) × (id ≡ fresh))

-- What the handler behind the middleware starts from: the request id in the response is the one in the
-- context, and only the origin of the local application may read the response, apart from what the header had.
pub record IsServed (r : HttpRequest) (fresh : Text) (h : Header) (id : Text) (g : Header)
    : Type 0 where
  pub is_id : IsRequestId r fresh id
  pub echoed : header_values request_id_name g ≡ id ∷ []
  pub local :
      header_get (codes "Origin") r.headers ≡ local_origin
      → header_values allow_origin_name g ≡ local_origin ∷ []
  pub foreign :
      header_get (codes "Origin") r.headers ≢ local_origin
      → header_values allow_origin_name g ≡ header_values allow_origin_name h

unfolded :
    (gql : ContextHandler) (now : ℕ) (fresh : Text) (l : Limiter)
    → app_answer gql now fresh l ≡ (λ r h.
      (rate_limit 100 minute none (cors app_cors (request_id fresh gql none)) now r h l).1)
unfolding app_answer app_middleware limited root_rate_limit root_cors
unfolded gql now fresh l =
    ap (λ k. k none) (wrap_all-outermost_first (app_middleware now fresh l) gql)

names_apart :
    (text_eq request_id_name request_id_name ≡ true)
    × (text_eq request_id_name allow_origin_name ≡ false)
    × (text_eq local_origin (codes "*") ≡ false)
unfolding codes text_eq
names_apart = (refl, refl, refl)

refusal_apart :
    (text_eq (codes "X-Content-Type-Options") allow_origin_name ≡ false)
    × (text_eq (codes "Content-Type") allow_origin_name ≡ false)
    × (text_eq (codes "Content-Length") allow_origin_name ≡ false)
    × (text_eq (codes "Retry-After") allow_origin_name ≡ false)
unfolding codes text_eq
refusal_apart = (refl, refl, refl, refl)

-- A refusal is a 429 that lets no origin read it.
refuse-values :
    (retry : ℕ) (h : Header)
    → ((refuse retry h).status ≡ 429)
      × (header_values allow_origin_name (refuse retry h).header
          ≡ header_values allow_origin_name h)
unfolding refuse http_error
refuse-values retry h =
    let (a, b, c, d) = refusal_apart in
    (refl, simp (header_values-set, header_values-del, a, b, c, d))

request_id-reaches :
    (gql : ContextHandler) (fresh : Text) (r : HttpRequest) (g : Header)
    → (id : Text) × IsRequestId r fresh id
      × (request_id fresh gql none r g ≡ gql (some id) r (header_set request_id_name id g))
unfolding request_id
request_id-reaches gql fresh r g =
    elim (Bool-cases (text_eq (header_get request_id_name r.headers) [])) [
      | inl e ↦ (fresh, inr ((text_eq_iff _ _).0 e, refl), rw e refl)
      | inr e ↦
          (header_get request_id_name r.headers, inl ((text_eq-false_iff _ _).0 e, refl), rw e refl)
    ]

module _ (r : HttpRequest) (fresh : Text) (h : Header) (id : Text) (is_id : IsRequestId r fresh id)
    (g : Header) (granted : IsGranted app_cors (header_get (codes "Origin") r.headers) h g) where
  kept_origin :
      header_values allow_origin_name (header_set request_id_name id g)
      ≡ header_values allow_origin_name g
  kept_origin = let (_, apart, _) = names_apart in rw (header_values-set, apart) refl

  no_wildcard : has app_cors.origins (codes "*") ≡ false
  unfolding has codes text_eq
  no_wildcard = refl

  local_nonempty : local_origin ≢ []
  unfolding codes
  local_nonempty = λ e. cc

  is_local : (o : Text) → o ≡ local_origin → has app_cors.origins o ≡ true
  unfolding has
  is_local o e =
      let same : text_eq local_origin o ≡ true = (text_eq_iff local_origin o).1 (sym e) in
      rw same refl

  is_foreign : (o : Text) → o ≢ local_origin → has app_cors.origins o ≡ false
  unfolding has
  is_foreign o ne =
      let differs : text_eq local_origin o ≡ false =
        (text_eq-false_iff local_origin o).1 (λ e. ne (sym e)) in
      rw differs refl

  request_id-IsServed : IsServed r fresh h id (header_set request_id_name id g)
  request_id-IsServed = record {
    is_id = is_id;
    echoed = let (same, _, _) = names_apart in rw (header_values-set, same) refl;
    local = λ e.
        kept_origin
        ∙ (granted.listed_origin (λ n. local_nonempty (sym e ∙ n)) no_wildcard (is_local _ e)
            ∙ ap (λ o. o ∷ []) e);
    foreign = λ ne. kept_origin ∙ granted.unlisted_origin no_wildcard (is_foreign _ ne);
  }

module _ (gql : ContextHandler) (now : ℕ) (fresh : Text) (l : Limiter) (r : HttpRequest)
    (h : Header) where
  answer_over :
      (take_turn 100 minute now r.remote_addr l).1 ≡ true
      → app_answer gql now fresh l r h
        ≡ refuse ((take_turn 100 minute now r.remote_addr l).0.window_end - now) h
  unfolding rate_limit
  answer_over over = ap (λ k. k r h) (unfolded gql now fresh l) ∙ rw over refl

  answer_under :
      (take_turn 100 minute now r.remote_addr l).1 ≡ false
      → app_answer gql now fresh l r h ≡ cors app_cors (request_id fresh gql none) r h
  unfolding rate_limit
  answer_under under = ap (λ k. k r h) (unfolded gql now fresh l) ∙ rw under refl

  answer-IsServed :
      (take_turn 100 minute now r.remote_addr l).1 ≡ false
      → (id : Text) × (g : Header) × (app_answer gql now fresh l r h ≡ gql (some id) r g)
        × IsServed r fresh h id g
  answer-IsServed under =
      let (g, granted, is_granted) = cors-IsGranted app_cors (request_id fresh gql none) r h in
      let (id, is_id, reached) = request_id-reaches gql fresh r g in
      (
        id,
        header_set request_id_name id g,
        answer_under under ∙ (granted ∙ reached),
        request_id-IsServed r fresh h id is_id g is_granted,
      )

-- Where the limiter finds the remote address over its limit, the answer is a 429 that does not depend on the
-- handler behind the middlewares, and that lets no origin read it. Else that handler answers, with the request
-- id in its context, which is the one that the request sends or a fresh one where it sends none, and
-- with a header that echoes it, and that lets the local application's origin, and no other, read the response.
pub app_answer_cases :
    (gql : ContextHandler) (now : ℕ) (fresh : Text) (l : Limiter) (r : HttpRequest) (h : Header)
    → (((take_turn 100 minute now r.remote_addr l).1 ≡ true)
        × ((app_answer gql now fresh l r h).status ≡ 429)
        × ((other : ContextHandler)
            → app_answer other now fresh l r h ≡ app_answer gql now fresh l r h)
        × (header_values allow_origin_name (app_answer gql now fresh l r h).header
            ≡ header_values allow_origin_name h))
      ⊎ (((take_turn 100 minute now r.remote_addr l).1 ≡ false)
          × ((id : Text) × (g : Header) × (app_answer gql now fresh l r h ≡ gql (some id) r g)
              × IsServed r fresh h id g))
app_answer_cases gql now fresh l r h =
    elim (Bool-cases (take_turn 100 minute now r.remote_addr l).1) [
      | inl over ↦
          let e = answer_over gql now fresh l r h over in
          let (status, values) =
            refuse-values ((take_turn 100 minute now r.remote_addr l).0.window_end - now) h in
          inl (
            over,
            ap Response.status e ∙ status,
            (λ other. answer_over other now fresh l r h over ∙ sym e),
            ap (λ a. header_values allow_origin_name a.header) e ∙ values,
          )
      | inr under ↦ inr (under, answer-IsServed gql now fresh l r h under)
    ]
