-- ===== src/Server/RateLimit/Reply.antt =====
-- What a request is answered, over the limit and within it.
use luima.Prelude.{
  ℕ, ◌+◌, ◌-◌, ◌*◌, ◌/◌, ◌≤◌, ◌<◌, Option, ◌≡◌, arith, Text, codes, itoa, ltb, Bool-cases, inl, inr,
  ◌⊎◌,
}
use luima.Server.Http.{HttpRequest, Header, Response, Handler, header_set, http_error}
use luima.Server.RateLimit.Window.{turn_over}
use luima.Server.RateLimit.{
  Limiter, count, bucket, roll, charge, take_turn, refuse, second, rate_limit,
}

-- The refusal: 429, with a Retry-After of whole seconds after which the window is over.
pub record IsRefusal (now window_end : ℕ) (h : Header) (r : Response) : Type 0 where
  pub seconds : ℕ
  pub response :
      r
      ≡ http_error
          (codes "rate limit exceeded")
          429
          (header_set (codes "Retry-After") (itoa seconds) h)
  pub not_zero : 0 < seconds
  pub window_over : window_end < now + seconds * second

module _ (n per : ℕ) (key : Option (HttpRequest → Text)) (next : Handler) (now : ℕ)
    (r : HttpRequest) (h : Header) (l : Limiter) where
  abbrev after : Limiter
  after = (rate_limit n per key next now r h l).0

  turn_window_end : (k : Text) → now ≤ (take_turn n per now k l).0.window_end
  unfolding take_turn roll charge
  turn_window_end k = ground arith

  -- A request is refused exactly when its bucket has been charged more than `n` times in the window,
  -- this request included, and the refusal names a time after which the window is over; any other
  -- request is answered by `next`, on an unchanged header.
  pub rate_limit_reply :
      ((n < count (bucket key r) after.hits)
        × IsRefusal now after.window_end h (rate_limit n per key next now r h l).1)
      ⊎ ((count (bucket key r) after.hits ≤ n)
          × ((rate_limit n per key next now r h l).1 ≡ next r h))
  unfolding rate_limit refuse
  rate_limit_reply =
      let k = bucket key r in
      let over = turn_over n per k now k l in
      let ends = turn_window_end k in
      elim (Bool-cases (ltb n (count k (take_turn n per now k l).0.hits))) [
        | inl too_many ↦ inl (
          ground arith,
          record {
            seconds = ((take_turn n per now k l).0.window_end - now) / second + 1;
            response = rw (over, too_many);
            not_zero = omega arith;
            window_over = omega arith;
          },
        )
        | inr few ↦ inr (ground arith, rw (over, few))
      ]
