-- ===== src/Server/Cors.antt =====
-- server/middleware.go: `CORS` and `allowOrigin`.
pub mod Grants
use luima.Prelude.{
  ℕ, zero, suc, ◌*◌, ◌/◌, Bool, List, [], ◌∷◌, Text, codes, text_eq, has, join, itoa, if◌then◌else◌,
}
use luima.Prelude.Int.{ℤ, pos, negsuc}
use luima.Server.Http.{HttpRequest, Header, Handler, header_get, header_add, header_set}
use luima.Server.RateLimit.{second}

-- `max_age` is a duration in nanoseconds.
pub record CorsConfig : Type 0 where
  pub origins : List Text
  pub headers : List Text
  pub max_age : ℤ

abbrev pub vary : Text
vary = codes "Vary"

abbrev pub allow_origin_name : Text
allow_origin_name = codes "Access-Control-Allow-Origin"

-- The Access-Control-Max-Age value: ten minutes where none is set, and 0 where it is negative.
unfoldable pub age : ℤ → Text
age (pos zero) = itoa 600
age (pos (suc n)) = itoa (suc n / second)
age (negsuc n) = codes "0"

-- The joined Access-Control-Allow-Headers value.
unfoldable pub allowed_headers : List Text → Text
allowed_headers more = join (codes ", ") (codes "Content-Type" ∷ (codes "Authorization" ∷ more))

-- `allowOrigin`.
unfoldable pub allow_origin : Text → Text → Text → Header → Header
allow_origin origin headers age h = header_set (codes "Access-Control-Max-Age") age (
    header_set (codes "Access-Control-Allow-Headers") headers (
      header_set (codes "Access-Control-Allow-Methods") (codes "GET, POST, OPTIONS")
        (header_set allow_origin_name origin h)))

-- The switch on the origin; `wildcard` and `allowed` are what the loop over the origins found.
unfoldable pub grant : CorsConfig → Text → Header → Header
grant c origin h =
    if text_eq origin []
    then h
    else if has c.origins (codes "*")
    then allow_origin (codes "*") (allowed_headers c.headers) (age c.max_age) h
    else if has c.origins origin
    then allow_origin origin (allowed_headers c.headers) (age c.max_age) h
    else h

-- The handler that CORS wraps around `next`.
unfoldable pub cors : CorsConfig → Handler → Handler
cors c next r h =
    next r (grant c (header_get (codes "Origin") r.headers) (header_add vary (codes "Origin") h))
