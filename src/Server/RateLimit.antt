-- ===== src/Server/RateLimit.antt =====
-- server/middleware.go: `RateLimit`. Times are nanoseconds since the zero time.Time; `n` and `per` are
-- not negative. The mutex makes what stands between Lock and Unlock one step, and the clock is read in
-- there.
pub mod Window
pub mod Refines
pub mod Reply
use luima.Prelude.{
  ℕ, ◌+◌, ◌-◌, ◌/◌, Bool, List, [], ◌∷◌, ◌++◌, Option, none, some, Text, codes, text_eq, itoa, ltb,
  if◌then◌else◌,
}
use luima.Server.Http.{HttpRequest, Header, Response, Handler, header_set, http_error}

-- The variables that the closure of one RateLimit call shares.
pub record Limiter : Type 0 where
  pub hits : List (Text × ℕ)
  pub window_end : ℕ

abbrev pub new_limiter : Limiter
new_limiter = record { hits = []; window_end = 0 }

-- `hits[k]`, zero where the key is absent.
unfoldable pub count : Text → List (Text × ℕ) → ℕ
count k [] = 0
count k ((j, c) ∷ hits) = if text_eq j k then c else count k hits

-- `hits[k]++`.
unfoldable pub bump : Text → List (Text × ℕ) → List (Text × ℕ)
bump k [] = (k, 1) ∷ []
bump k ((j, c) ∷ hits) = if text_eq j k then (j, c + 1) ∷ hits else (j, c) ∷ bump k hits

-- `if now.After(windowEnd)`: the sweep.
unfoldable pub roll : ℕ → ℕ → Limiter → Limiter
roll per now l = if ltb l.window_end now then record { hits = []; window_end = now + per } else l

unfoldable pub charge : Text → Limiter → Limiter
charge k l = record l { hits = bump k l.hits }

-- What is done under the mutex: the new state, and whether the key is over the limit.
unfoldable pub take_turn : ℕ → ℕ → ℕ → Text → Limiter → Limiter × Bool
take_turn n per now k l = let l' = charge k (roll per now l) in (l', ltb n (count k l'.hits))

-- `key`, or the remote address where it is nil.
abbrev pub bucket : Option (HttpRequest → Text) → HttpRequest → Text
bucket none r = r.remote_addr
bucket (some key) r = key r

abbrev pub second : ℕ
second = 1000000000

-- The answer over the limit, with what is left of the window.
unfoldable pub refuse : ℕ → Header → Response
refuse retry h =
    http_error (codes "rate limit exceeded") 429
      (header_set (codes "Retry-After") (itoa (retry / second + 1)) h)

-- The handler that RateLimit wraps around `next`.
unfoldable pub rate_limit :
    ℕ
    → ℕ
    → Option (HttpRequest → Text)
    → Handler
    → ℕ
    → HttpRequest
    → Header
    → Limiter
    → Limiter × Response
rate_limit n per key next now r h l =
    let (l', over) = take_turn n per now (bucket key r) l in
    (l', (if over then refuse (l'.window_end - now) h else next r h))
