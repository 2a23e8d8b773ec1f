-- ===== src/Server/Mount/Order.antt =====
-- server/server.go: the order in which `Mount` sets up the gqlgen server and its middleware.
use luima.Prelude.{
  ℕ, zero, suc, Bool, List, [], ◌∷◌, ◌++◌, Option, none, some, ◌≡◌, refl, ap, ◌∙◌, length,
  Bool-cases, inl, inr, if◌then◌else◌,
}
use luima.Prelude.Int.{ℤ}
use luima.Server.Mount.{
  Platform, Config, Call, use_extension, set_query_cache, set_error_presenter, add_transport,
  other_call, default_calls, transport_calls, server_calls, calls_if, unless_negative,
  fixed_complexity_limit, max_depth_extension, apply_at, wrap_from, wrap_all,
}

-- Each middleware around all that follow it.
abbrev pub outermost_first : {H : Type 0} → List (H → H) → H → H
outermost_first [] h = h
outermost_first (mw ∷ mws) h = mw (outermost_first mws h)

wrap_from-cons :
    {H : Type 0} (i : ℕ) (mw : H → H) (mws : List (H → H)) (h : H)
    → wrap_from (suc i) (mw ∷ mws) h ≡ mw (wrap_from i mws h)
unfolding wrap_from
wrap_from-cons zero mw mws h = refl
wrap_from-cons (suc i) mw mws h = wrap_from-cons i mw mws (apply_at i mws h)

-- The loop of `Mount`, from the last middleware back to the first, leaves the first outermost and each
-- around all that follow it, with the handler of gqlgen innermost.
pub wrap_all-outermost_first :
    {H : Type 0} (mws : List (H → H)) (h : H) → wrap_all mws h ≡ outermost_first mws h
unfolding wrap_all wrap_from
wrap_all-outermost_first [] h = refl
wrap_all-outermost_first (mw ∷ mws) h =
    wrap_from-cons (length mws) mw mws h ∙ ap mw (wrap_all-outermost_first mws h)

-- The first that passes a test, as gqlgen selects a transport.
abbrev pub first_of : {A : Type 0} → (A → Bool) → List A → Option A
first_of test [] = none
first_of test (a ∷ xs) = let rest = first_of test xs in if test a then some a else rest

abbrev pub or_else : {A : Type 0} → Option A → Option A → Option A
or_else none other = other
or_else (some a) _ = some a

first_of-append :
    {A : Type 0} (test : A → Bool) (xs ys : List A)
    → first_of test (xs ++ ys) ≡ or_else (first_of test xs) (first_of test ys)
first_of-append test [] ys = refl
first_of-append test (a ∷ xs) ys = elim (Bool-cases (test a)) [
  | inl e ↦ rw e refl
  | inr e ↦ rw e (first_of-append test xs ys)
]

module _ (p : Platform) where
  abbrev pub transports : List (Call p) → List p.Transport
  transports [] = []
  transports (add_transport t ∷ calls) = t ∷ transports calls
  transports (_ ∷ calls) = transports calls

  transports-append :
      (cs ds : List (Call p)) → transports (cs ++ ds) ≡ transports cs ++ transports ds
  transports-append [] ds = refl
  transports-append (add_transport t ∷ cs) ds = ap (◌∷◌ t) (transports-append cs ds)
  transports-append (set_query_cache n ∷ cs) ds = transports-append cs ds
  transports-append (use_extension e ∷ cs) ds = transports-append cs ds
  transports-append (set_error_presenter e ∷ cs) ds = transports-append cs ds
  transports-append (other_call o ∷ cs) ds = transports-append cs ds

  transports-calls_if :
      (o : Option ℤ) (call : ℤ → Call p) (rest : List (Call p))
      → ((n : ℤ) → transports (call n ∷ []) ≡ [])
      → transports (calls_if p o call ++ rest) ≡ transports rest
  transports-calls_if none call rest h = refl
  transports-calls_if (some n) call rest h =
      transports-append (call n ∷ []) rest ∙ ap (λ ts. ts ++ transports rest) (h n)

  default_transports : (cfg : Config p) → transports (default_calls p cfg) ≡ []
  unfolding default_calls
  default_transports cfg =
      transports-calls_if (unless_negative cfg.query_cache 1000) set_query_cache _ (λ n. refl)
      ∙ (transports-calls_if (unless_negative cfg.complexity_limit 1000)
            (λ n. use_extension (fixed_complexity_limit n)) _ (λ n. refl)
          ∙ transports-calls_if (unless_negative cfg.max_depth 15)
              (λ n. use_extension (max_depth_extension n)) _ (λ n. refl))

  abbrev pub luima_transports : List p.Transport
  luima_transports = p.options_transport ∷ (p.get_transport ∷ (p.post_transport ∷ []))

  -- For each request, whatever transports support it, the first that supports it is one that Configure
  -- added, the first of these, where there is any, and else the first of OPTIONS, GET and POST.
  pub server_transport :
      (cfg : Config p) (supports : p.Transport → Bool)
      → first_of supports (transports (server_calls p cfg))
        ≡ or_else
            (first_of supports (transports cfg.configure))
            (first_of supports luima_transports)
  unfolding server_calls
  server_transport cfg supports =
      let added : transports (server_calls p cfg) ≡ transports cfg.configure ++ luima_transports =
        transports-append (default_calls p cfg) (cfg.configure ++ transport_calls p)
        ∙ (ap (λ ts. ts ++ transports (cfg.configure ++ transport_calls p)) (default_transports cfg)
            ∙ transports-append cfg.configure (transport_calls p)) in
      ap (first_of supports) added
      ∙ first_of-append supports (transports cfg.configure) luima_transports
