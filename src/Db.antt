-- ===== src/Db.antt =====
-- db/db.go: `connector`, `Connect`, `ConnectWith` and `StatementTimeout`. The URL parser of net/url,
-- pgdriver, database/sql and bun are parameters; the pool is the state that their calls change.
pub mod Redact
pub mod Accepted
pub mod Closed
pub mod Tests
use luima.Prelude.{
  ℕ, zero, suc, ◌*◌, ◌/◌, ◌==◌, Bool, true, false, not, ◌||◌, ◌&&◌, ◌+◌, leb, map, List, [], ◌∷◌,
  ◌++◌, Option, none, some, Text, codes, text_eq, has, if◌then◌else◌,
}
use luima.Prelude.Int.{ℤ, pos, negsuc}
use luima.Db.Redact.{DriverError, redact}

-- What `connector` reads of a `*url.URL`: its parts, its raw query, and the keys of its parsed query.
pub record Url : Type 0 where
  pub opaque : Text
  pub escaped_path : Text
  pub raw_query : Text
  pub escaped_fragment : Text
  pub query_keys : List Text

-- A `*tls.Config`; `verify_peer` says whether VerifyPeerCertificate is set.
pub record TlsConfig : Type 0 where
  pub insecure_skip_verify : Bool
  pub verify_peer : Bool

-- The fields of `pgdriver.Config` that the package reads or writes. Durations are in nanoseconds.
pub record PgConfig : Type 0 where
  pub tls : Option TlsConfig
  pub dial_timeout : ℤ
  pub read_timeout : ℤ
  pub write_timeout : ℤ
  pub password : Text
  pub conn_params : List (Text × ℕ)

pub data Failure : Type 0 where
  at_outside_user_info : Failure
  password_parameter : Text → Failure
  not_opened : Text → Failure
  ping_failed : Text → Failure

pub data Opened {ℓ} (A : Type ℓ) : Type ℓ where
  ok : A → Opened A
  failed : Failure → Opened A

-- The text before the first "=".
unfoldable pub before_equals : Text → Text
before_equals [] = []
before_equals (c ∷ s) = let rest = before_equals s in if c == b'=' then [] else c ∷ rest

unfoldable pub contains_at : Text → Bool
contains_at [] = false
contains_at (c ∷ s) = c == b'@' || contains_at s

abbrev pub sensitive : List Text
sensitive = codes "password" ∷ (codes "sslpassword" ∷ [])

-- A negative timeout is pgdriver's default instead.
abbrev pub or_default : ℤ → ℤ → ℤ
or_default (negsuc n) def = def
or_default t def = t

-- `InsecureSkipVerify` and `VerifyPeerCertificate`, where the latter is set.
unfoldable pub verify_by_tls : TlsConfig → TlsConfig
verify_by_tls t =
    if t.verify_peer then record { insecure_skip_verify = false; verify_peer = false } else t

abbrev pub map_tls : Option TlsConfig → Option TlsConfig
map_tls none = none
map_tls (some t) = some (verify_by_tls t)

-- `def` is the config of `pgdriver.NewConnector()`, `env` is $PGPASSWORD.
unfoldable pub correct : PgConfig → Text → PgConfig → PgConfig
correct def env cfg = record cfg {
  tls = map_tls cfg.tls;
  dial_timeout = or_default cfg.dial_timeout def.dial_timeout;
  read_timeout = or_default cfg.read_timeout def.read_timeout;
  write_timeout = or_default cfg.write_timeout def.write_timeout;
  password = if text_eq cfg.password [] then env else cfg.password;
}

-- How pgdriver's OpenConnector ends, with a panic that it raises.
pub data OpenEnd : Type 0 where
  returned : PgConfig → OpenEnd
  returned_error panicked_error : DriverError → OpenEnd
  panicked_value : Text → OpenEnd

-- pgdriver, and the password in the user info of a URL, where it parses and has one.
pub record Driver : Type 0 where
  pub open_driver : Text → OpenEnd
  pub password : Text → Option Text

-- `openConnector`.
unfoldable pub open_connector : Driver → Text → Opened PgConfig
open_connector driver url = elim (driver.open_driver url) as (λ _. Opened PgConfig) [
  | returned cfg ↦ ok cfg
  | returned_error e ↦ failed (not_opened (redact driver.password url e))
  | panicked_error e ↦ failed (not_opened (redact driver.password url e))
  | panicked_value v ↦
      failed (not_opened (redact driver.password url (record { text = v; url_error = none })))
]

-- `strings.Trim(k, "\"")`, and lower case: no rune past ASCII has one of the letters of the two names as
-- its lower case.
unfoldable pub trim_left : Text → Text
trim_left [] = []
trim_left (c ∷ s) = let rest = trim_left s in if c == b'"' then rest else c ∷ s

unfoldable pub trim_right : Text → Text
trim_right [] = []
trim_right (c ∷ s) =
    let rest = trim_right s in if c == b'"' && text_eq rest [] then [] else c ∷ rest

abbrev pub lower : ℕ → ℕ
lower c = if leb b'A' c && leb c b'Z' then c + 32 else c

unfoldable pub plain_key : Text → Text
plain_key k = map lower (trim_right (trim_left k))

unfoldable pub refused_key : List Text → Option Text
refused_key [] = none
refused_key (k ∷ ks) =
    let rest = refused_key ks in if has sensitive (plain_key k) then some (plain_key k) else rest

-- The tests on a URL that parses.
unfoldable pub check_url : Url → Opened (Unit {0})
check_url u =
    if contains_at
      (u.opaque ++ (u.escaped_path ++ (before_equals u.raw_query ++ u.escaped_fragment)))
    then failed at_outside_user_info
    else elim (refused_key u.query_keys) [ none ↦ ok tt | some n ↦ failed (password_parameter n) ]

-- `connector`: `parse` is url.Parse, none where it fails.
module _ (parse : Text → Option Url) (driver : Driver) (def : PgConfig) (env : Text) where
  abbrev pub open_corrected : Text → Opened PgConfig
  open_corrected url = elim (open_connector driver url) [
    | failed e ↦ failed e
    | ok cfg ↦ ok (correct def env cfg)
  ]

  unfoldable pub connector : Text → Opened PgConfig
  connector url = elim (parse url) [
    | none ↦ open_corrected url
    | some u ↦ elim (check_url u) [ failed e ↦ failed e | ok _ ↦ open_corrected url ]
  ]

abbrev pub millisecond : ℕ
millisecond = 1000000

-- `max(d.Milliseconds(), 0)`, and 1 for less than a millisecond.
unfoldable pub timeout_ms : ℤ → ℕ
timeout_ms (negsuc n) = 0
timeout_ms (pos zero) = 0
timeout_ms (pos (suc n)) = let ms = suc n / millisecond in if ms == 0 then 1 else ms

-- `c.ConnParams[k] = v`.
unfoldable pub set_param : Text → ℕ → List (Text × ℕ) → List (Text × ℕ)
set_param k v [] = (k, v) ∷ []
set_param k v ((j, w) ∷ params) =
    let rest = set_param k v params in if text_eq j k then (j, v) ∷ params else (j, w) ∷ rest

-- `StatementTimeout`.
unfoldable pub statement_timeout : ℤ → PgConfig → PgConfig
statement_timeout d c = record c {
  conn_params = set_param (codes "statement_timeout") (timeout_ms d) c.conn_params;
}

-- database/sql and bun: the world that calls change, a pool, its opening, the limits, its ping under a
-- timeout, and its closing.
pub record Pool : Type 1 where
  pub World : Type 0
  pub Db : Type 0
  pub open_db : PgConfig → World → World × Db
  pub set_limits : ℕ → Db → World → World
  pub ping : ℤ → Db → World → World × Option Text
  pub close : Db → World → World

-- pgdriver's own dial timeout, where the tuned one is not positive.
abbrev pub dial_bound : ℤ → ℤ
dial_bound (pos (suc n)) = pos (suc n)
dial_bound _ = pos (5000 * millisecond)

abbrev pub tuned : Option (PgConfig → PgConfig) → PgConfig → PgConfig
tuned none cfg = cfg
tuned (some tune) cfg = tune cfg

module _ (p : Pool) (num_cpu : ℕ) (parse : Text → Option Url) (driver : Driver) (def : PgConfig)
    (env : Text) where
  -- The end of ConnectWith.
  unfoldable pub after_ping : p.Db → p.World × Option Text → p.World × Opened p.Db
  after_ping db (w, none) = (w, ok db)
  after_ping db (w, some e) = (p.close db w, failed (ping_failed e))

  unfoldable pub connect_to : PgConfig → p.World → p.World × Opened p.Db
  connect_to cfg w =
      let (w1, db) = p.open_db cfg w in
      let w2 = p.set_limits (10 * num_cpu) db w1 in
      after_ping db (p.ping (dial_bound cfg.dial_timeout) db w2)

  -- `ConnectWith`.
  unfoldable pub connect_with :
      Text → Option (PgConfig → PgConfig) → p.World → p.World × Opened p.Db
  connect_with url tune w = elim (connector parse driver def env url) [
    | failed e ↦ (w, failed e)
    | ok cfg ↦ connect_to (tuned tune cfg) w
  ]

  -- `Connect`.
  unfoldable pub connect : Text → p.World → p.World × Opened p.Db
  connect url w = connect_with url none w
