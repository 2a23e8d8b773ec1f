-- ===== src/Server/MiddlewareTests.antt =====
-- Runs of the middleware, and each of its theorems at an input.
use luima.Prelude.{
  ℕ, ◌+◌, ◌*◌, ◌≤◌, ◌<◌, List, [], ◌∷◌, none, ◌≡◌, refl, ◌⊎◌, Text, codes, has, text_eq, arith,
  itoa, join,
}
use luima.Prelude.Int.{pos}
use luima.Server.Http.{
  HttpRequest, Header, Handler, header_get, header_add, header_del, header_set, http_error,
}
use luima.Server.RateLimit.{
  Limiter, new_limiter, count, bump, roll, charge, take_turn, refuse, rate_limit,
}
use luima.Server.RateLimit.Window.{
  run, passed_in, AllPass, requests, passed_in_interval, run-AllPass,
}
use luima.Server.RateLimit.Reply.{IsRefusal, rate_limit_reply}
use luima.Server.Cors.{CorsConfig, cors, grant, allow_origin, age, allowed_headers}
use luima.Server.Cors.Grants.{IsGranted, cors-IsGranted}
use luima.Server.RateLimit.{new_limiter}
use luima.Server.RateLimit.Window.{run}
use luima.Server.RateLimit.Refines.{no_span, allowed, run-refines}

abbrev ann : Text
ann = codes "ann"

-- Two windows of width 10 with one request each at their common edge.
abbrev burst : List (ℕ × Text)
burst = (10, ann) ∷ ((20, ann) ∷ ((20, ann) ∷ ((21, ann) ∷ [])))

limiter : Unit {0}
unfolding run take_turn roll charge bump count codes text_eq passed_in
limiter = tt

-- With n = 1, two requests within 10 of one another are let through.
two_in_a_row : passed_in ann 11 21 (run 1 10 new_limiter ((10, codes "bob") ∷ burst)) ≡ 1
unfolding limiter
two_in_a_row = refl

twice : passed_in ann 10 21 (run 1 10 new_limiter burst) ≡ 2
unfolding limiter
twice = refl

passed_in_interval_example : passed_in ann 11 (11 + 10) (run 1 10 new_limiter burst) ≤ 2 * 1
passed_in_interval_example = passed_in_interval 1 10 ann 11 0 new_limiter burst (omega arith)

run-AllPass_example : AllPass 4 10 ann (run 4 10 new_limiter burst)
unfolding requests count text_eq codes
run-AllPass_example = run-AllPass 4 10 ann new_limiter burst (omega arith)

abbrev plain : Handler
plain r h = record { status = 200; header = h; body = [] }

abbrev request : HttpRequest
request = record {
  method = codes "POST";
  remote_addr = ann;
  headers = (codes "Origin", codes "https://app.example.com") ∷ [];
}

abbrev spent : Limiter
spent = record { hits = (ann, 2) ∷ []; window_end = 5000000000 }

rate_limited :
    (rate_limit 2 60000000000 none plain 3000000000 request [] spent).1
    ≡ http_error (codes "rate limit exceeded") 429 ((codes "Retry-After", codes "3") ∷ [])
unfolding rate_limit refuse header_set header_add header_del itoa limiter
rate_limited = refl

rate_limit_reply_example :
    ((2 < count ann (rate_limit 2 60 none plain 30 request [] spent).0.hits)
      × IsRefusal 30
          (rate_limit 2 60 none plain 30 request [] spent).0.window_end
          []
          (rate_limit 2 60 none plain 30 request [] spent).1)
    ⊎ ((count ann (rate_limit 2 60 none plain 30 request [] spent).0.hits ≤ 2)
        × ((rate_limit 2 60 none plain 30 request [] spent).1 ≡ plain request []))
rate_limit_reply_example = rate_limit_reply 2 60 none plain 30 request [] spent

abbrev one_origin : CorsConfig
one_origin = record {
  origins = codes "https://app.example.com" ∷ [];
  headers = codes "X-Tenant" ∷ [];
  max_age = pos 0;
}

cors_runs : cors one_origin plain request [] ≡ record {
  status = 200;
  header =
      (codes "Vary", codes "Origin")
      ∷ ((codes "Access-Control-Allow-Origin", codes "https://app.example.com")
          ∷ ((codes "Access-Control-Allow-Methods", codes "GET, POST, OPTIONS")
              ∷ ((
                codes "Access-Control-Allow-Headers",
                codes "Content-Type, Authorization, X-Tenant",
              )
                  ∷ ((codes "Access-Control-Max-Age", codes "600") ∷ []))));
  body = [];
}
unfolding cors grant allow_origin header_set header_add header_del header_get age allowed_headers
    join itoa has text_eq codes
cors_runs = refl

cors-IsGranted_example :
    (g : Header) × (cors one_origin plain request [] ≡ plain request g)
    × IsGranted one_origin (header_get (codes "Origin") request.headers) [] g
cors-IsGranted_example = cors-IsGranted one_origin plain request []

run-refines_example : run 1 10 new_limiter burst ≡ allowed 1 10 no_span burst
run-refines_example = run-refines 1 10 burst
