-- ===== src/Db/Closed.antt =====
-- db/db.go: what `ConnectWith` leaves of a pool, and what `StatementTimeout` sets.
use luima.Prelude.{
  ℕ, zero, suc, ◌+◌, ◌*◌, ◌≤◌, ◌<◌, Bool, false, List, [], ◌∷◌, Option, none, some, ◌≡◌, refl,
  arith, Text, codes, text_eq, text_eq_self, Bool-cases, inl, inr, if◌then◌else◌,
}
use luima.Prelude.Int.{ℤ, pos, negsuc}
use luima.Db.{
  Url, Driver, connector, PgConfig, Opened, ok, failed, Failure, ping_failed, Pool, timeout_ms,
  millisecond, set_param, statement_timeout, dial_bound, tuned, after_ping, connect_to,
  connect_with,
}

-- The limit of a positive duration is its milliseconds, but not less than 1.
timeout_ms-bounds :
    (n : ℕ)
    → (1 ≤ timeout_ms (pos (suc n))) × (suc n < (timeout_ms (pos (suc n)) + 1) * millisecond)
unfolding timeout_ms
timeout_ms-bounds n = ground arith

-- `m[k]`.
unfoldable pub param : Text → List (Text × ℕ) → Option ℕ
param k [] = none
param k ((j, v) ∷ params) = let rest = param k params in if text_eq j k then some v else rest

param-set_param :
    (k : Text) (v : ℕ) (params : List (Text × ℕ)) → param k (set_param k v params) ≡ some v
unfolding param set_param
param-set_param k v [] = rw (text_eq_self k) refl
param-set_param k v ((j, w) ∷ params) = elim (Bool-cases (text_eq j k)) [
  | inl e ↦ rw e (rw e refl)
  | inr e ↦ rw e (rw e (param-set_param k v params))
]

-- StatementTimeout of a positive duration sets the parameter statement_timeout, whatever it was, to the
-- duration in milliseconds, and to 1 where that is less: never to 0, which is no limit.
pub statement_timeout-bounds :
    (n : ℕ) (c : PgConfig)
    → (ms : ℕ) × (param (codes "statement_timeout") (statement_timeout (pos (suc n)) c).conn_params
        ≡ some ms)
      × (1 ≤ ms)
      × (suc n < (ms + 1) * millisecond)
unfolding statement_timeout
statement_timeout-bounds n c =
    let ms = timeout_ms (pos (suc n)) in
    let (low, high) = timeout_ms-bounds n in
    (ms, param-set_param (codes "statement_timeout") ms c.conn_params, low, high)

abbrev pub IsPositive : ℤ → Type 0
IsPositive (pos (suc n)) = Unit
IsPositive _ = ⊥

dial_bound-IsPositive : (t : ℤ) → IsPositive (dial_bound t)
dial_bound-IsPositive (pos zero) = tt
dial_bound-IsPositive (pos (suc n)) = tt
dial_bound-IsPositive (negsuc n) = tt

module _ (p : Pool) (num_cpu : ℕ) (parse : Text → Option Url) (driver : Driver) (def : PgConfig)
    (env : Text) (is_open : p.Db → p.World → Bool)
    (close-closes : (db : p.Db) (w : p.World) → is_open db (p.close db w) ≡ false) where
  -- A pool that was opened, over the config that `connector` returned, tuned.
  abbrev pub IsOpened :
      Text → Option (PgConfig → PgConfig) → p.World → PgConfig → p.World → p.Db → Type 0
  IsOpened url tune w cfg w1 db =
      (connector parse driver def env url ≡ ok cfg) × (p.open_db (tuned tune cfg) w ≡ (w1, db))

  -- How ConnectWith may end: no config, and the world as it was; the pool that it opened, whose ping, under a
  -- positive timeout, gave no error, in the world that the ping left; or the error of that ping, and the pool
  -- that it opened, which is closed.
  pub data Ends (url : Text) (tune : Option (PgConfig → PgConfig)) (w : p.World)
      : p.World × Opened p.Db → Type 0 where
    no_config :
        (f : Failure)
        → connector parse driver def env url ≡ failed f
        → Ends url tune w (w, failed f)
    connected :
        (cfg : PgConfig) (db : p.Db) (t : ℤ) (w1 w2 w3 : p.World)
        → IsOpened url tune w cfg w1 db
        → IsPositive t
        → p.ping t db w2 ≡ (w3, none)
        → Ends url tune w (w3, ok db)
    unreached :
        (cfg : PgConfig) (db : p.Db) (e : Text) (t : ℤ) (w1 w2 w3 w' : p.World)
        → IsOpened url tune w cfg w1 db
        → p.ping t db w2 ≡ (w3, some e)
        → is_open db w' ≡ false
        → Ends url tune w (w', failed (ping_failed e))

  module _ (url : Text) (tune : Option (PgConfig → PgConfig)) (w : p.World) where
    after_ping-Ends :
        (cfg : PgConfig) (db : p.Db) (t : ℤ) (w1 w2 : p.World) (reply : p.World × Option Text)
        → IsOpened url tune w cfg w1 db
        → IsPositive t
        → p.ping t db w2 ≡ reply
        → Ends url tune w (after_ping p num_cpu parse driver def env db reply)
    unfolding after_ping
    after_ping-Ends cfg db t w1 w2 (w3, none) opened bounded e =
        connected cfg db t w1 w2 w3 opened bounded e
    after_ping-Ends cfg db t w1 w2 (w3, some error) opened bounded e =
        unreached cfg db error t w1 w2 w3 (p.close db w3) opened e (close-closes db w3)

    connect_to-Ends :
        (cfg : PgConfig)
        → connector parse driver def env url ≡ ok cfg
        → Ends url tune w (connect_to p num_cpu parse driver def env (tuned tune cfg) w)
    unfolding connect_to
    connect_to-Ends cfg e =
        let bound = dial_bound (tuned tune cfg).dial_timeout in
        after_ping-Ends cfg _ bound _ _ _ (e, refl)
          (dial_bound-IsPositive (tuned tune cfg).dial_timeout) refl

    -- Where closing a pool leaves it closed, ConnectWith returns the error of `connector` and the world as it
    -- was; or the pool that it opened, over the config of `connector`, tuned, whose ping under a positive timeout
    -- gave no error; or the error of that ping, with the pool that it opened closed.
    pub connect_with-Ends : Ends url tune w (connect_with p num_cpu parse driver def env url tune w)
    unfolding connect_with
    connect_with-Ends = ends (connector parse driver def env url) refl
      where
        ends :
            (o : Opened PgConfig)
            → connector parse driver def env url ≡ o
            → Ends url tune w (elim o as (λ _. p.World × Opened p.Db) [
              | failed e ↦ (w, failed e)
              | ok cfg ↦ connect_to p num_cpu parse driver def env (tuned tune cfg) w
            ])
        ends (failed f) e = no_config f e
        ends (ok cfg) e = connect_to-Ends cfg e
