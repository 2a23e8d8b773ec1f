-- ===== src/Db/Tests.antt =====
-- db/db.go: the package over a small world, with its pool open or closed.
use luima.Prelude.{
  ℕ, ◌*◌, Bool, true, false, [], ◌∷◌, Option, none, some, ◌≡◌, refl, Text, codes, text_eq, has,
}
use luima.Prelude.Int.{pos, negsuc}
use luima.Db.{
  trim_left, trim_right, plain_key, Url, PgConfig, failed, at_outside_user_info, password_parameter,
  ping_failed, before_equals, contains_at, verify_by_tls, correct, refused_key, check_url,
  connector, timeout_ms, set_param, statement_timeout, Pool, millisecond, after_ping, connect_to,
  connect_with,
}
use luima.Db.{not_opened, Driver, returned, panicked_error, open_connector}
use luima.Db.Redact.{starts_with, contains, replace_from, quoted_length, mask_from, redact}
use luima.Db.Closed.{Ends, connect_with-Ends}
use luima.Luimagen.Quote.{quote}
use luima.Db.Redact.Quoted.{redact-quoted}
use luima.Prelude.{All, ◌++◌, ◌≢◌, arith}

abbrev pub defaults : PgConfig
defaults = record {
  tls = none;
  dial_timeout = pos (5000 * millisecond);
  read_timeout = pos (10000 * millisecond);
  write_timeout = pos (5000 * millisecond);
  password = [];
  conn_params = [];
}

-- The URL asks for sslmode=verify-ca and has a negative timeout.
abbrev pub strict : PgConfig
strict = record defaults {
  tls = some (record { insecure_skip_verify = true; verify_peer = true });
  read_timeout = negsuc 0;
}

abbrev pub no_parts : Url
no_parts = record {
  opaque = [];
  escaped_path = codes "/app";
  raw_query = codes "sslmode=verify-ca";
  escaped_fragment = [];
  query_keys = codes "sslmode" ∷ [];
}

abbrev pub parses : Text → Option Url
parses _ = some no_parts

abbrev pub driver : Driver
driver = record { open_driver = λ _. returned strict; password = λ _. none }

-- pgdriver's parse error quotes the URL.
abbrev refusing : Driver
refusing = record {
  open_driver = λ _. panicked_error (record {
    text = codes "bad";
    url_error = some (codes "parse", codes "invalid port \":secret\" after host");
  });
  password = λ _. none;
}

runs : Unit {0}
unfolding open_connector redact starts_with contains replace_from quoted_length mask_from
    before_equals contains_at verify_by_tls correct trim_left trim_right plain_key refused_key
    check_url connector timeout_ms set_param statement_timeout after_ping connect_to connect_with
    has text_eq codes
runs = tt

port_masked :
    open_connector refusing (codes "postgres://app:se/cret@db")
    ≡ failed (
        not_opened (
          codes
            "parse database url: parse: invalid port [redacted] after host (percent-encode any / ? # or % in the user or password)"))
unfolding runs
port_masked = refl

url_masked :
    redact
      (λ _. none)
      (codes "pg://x")
      (record { text = codes "cannot open pg://x here"; url_error = none })
    ≡ codes "parse database url: cannot open [redacted] here"
unfolding runs
url_masked = refl

password_withheld :
    redact
      (λ _. some (codes "hunter2"))
      (codes "pg://x")
      (record { text = codes "hunter2 refused"; url_error = none })
    ≡ codes "parse database url: pgdriver's error is withheld because it contains the password"
unfolding runs
password_withheld = refl

at_in_path :
    check_url (record no_parts { escaped_path = codes "/pa@ss" }) ≡ failed at_outside_user_info
unfolding runs
at_in_path = refl

password_in_query :
    check_url (record no_parts { query_keys = codes "\"PassWord\"" ∷ [] })
    ≡ failed (password_parameter (codes "password"))
unfolding runs
password_in_query = refl

half_millisecond :
    (statement_timeout (pos 500000) defaults).conn_params ≡ (codes "statement_timeout", 1) ∷ []
unfolding runs
half_millisecond = refl

-- The world says whether the one pool is open; the server does not answer.
abbrev pub one_pool : Pool
one_pool = record {
  World = Bool;
  Db = Unit {0};
  open_db = λ _ _. (true, tt);
  set_limits = λ _ _ w. w;
  ping = λ _ _ w. (w, some (codes "connection refused"));
  close = λ _ _. false;
}

unreached_closed :
    connect_with one_pool 8 parses driver defaults
      (codes "secret")
      (codes "postgres://app@db/app")
      none
      false
    ≡ (false, failed (ping_failed (codes "connection refused")))
unfolding runs
unreached_closed = refl

abbrev pub open_now : Unit {0} → Bool → Bool
open_now _ w = w

connect_with-Ends_example :
    Ends one_pool 8 parses driver defaults
      (codes "secret")
      open_now
      (λ _ _. refl)
      (codes "postgres://app@db/app")
      none
      false
      (connect_with one_pool 8 parses driver defaults
        (codes "secret")
        (codes "postgres://app@db/app")
        none
        false)
connect_with-Ends_example =
    connect_with-Ends one_pool 8 parses driver defaults (codes "secret") open_now (λ _ _. refl)
      (codes "postgres://app@db/app") none false

-- No rune past ASCII prints.
abbrev nothing_wide : ℕ → Bool
nothing_wide _ = false

invalid_port-bare : All (λ c. c ≢ b'"') (codes "invalid port ")
unfolding codes
invalid_port-bare = omega arith

-- A password with a slash, which net/url takes for a port.
redact-quoted_example :
    redact
      (λ _. none)
      (codes "postgres://u:p/w@h/d")
      (record {
        text = [];
        url_error = some (
          codes "parse",
          codes "invalid port " ++ (quote nothing_wide (codes ":p") ++ codes " after host"),
        );
      })
    ≡ codes "parse database url: "
      ++ (codes "parse"
          ++ (codes ": "
              ++ ((codes "invalid port "
                    ++ (codes "[redacted]" ++ mask_from 0 (codes " after host")))
                  ++ codes " (percent-encode any / ? # or % in the user or password)")))
redact-quoted_example =
    redact-quoted nothing_wide (λ _. none) (codes "postgres://u:p/w@h/d") [] (codes "parse")
      (codes "invalid port ") (codes ":p") (codes " after host") invalid_port-bare
