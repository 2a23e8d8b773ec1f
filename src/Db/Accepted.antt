-- ===== src/Db/Accepted.antt =====
-- db/db.go: the URLs that `connector` accepts, and the configs that it makes of them.
use luima.Prelude.{true, false, ◌++◌, Option, none, some, ◌≡◌, ◌≢◌, has, All}
use luima.Prelude.Int.{ℤ, pos, negsuc}
use luima.Db.{plain_key, Url, TlsConfig, PgConfig, before_equals, sensitive}

abbrev pub IsNotNegative : ℤ → Type 0
IsNotNegative (pos n) = Unit
IsNotNegative (negsuc n) = ⊥

-- No config for TLS is left with a verification of its own, and none that had one skips the standard one.
abbrev pub IsVerified : Option TlsConfig → Option TlsConfig → Type 0
IsVerified (some t) (some t') =
    (t'.verify_peer ≡ false) × (t.verify_peer ≡ true → t'.insecure_skip_verify ≡ false)
IsVerified none none = Unit
IsVerified _ _ = ⊥

-- What `connector` promises of a config that it returns for a URL.
pub record IsConnected (parsed : Option Url) (opened cfg : PgConfig) : Type 0 where
  pub user_info_ends :
      (u : Url)
      → parsed ≡ some u
      → All
          (λ c. c ≢ b'@')
          (u.opaque ++ (u.escaped_path ++ (before_equals u.raw_query ++ u.escaped_fragment)))
  pub no_password_key :
      (u : Url) → parsed ≡ some u → All (λ k. has sensitive (plain_key k) ≡ false) u.query_keys
  pub dial_bounded : IsNotNegative cfg.dial_timeout
  pub read_bounded : IsNotNegative cfg.read_timeout
  pub write_bounded : IsNotNegative cfg.write_timeout
  pub verified : IsVerified opened.tls cfg.tls
  pub same_params : cfg.conn_params ≡ opened.conn_params

-- The defaults of pgdriver, none of which is negative.
abbrev pub HasDefaults : PgConfig → Type 0
HasDefaults def =
    IsNotNegative def.dial_timeout
    × IsNotNegative def.read_timeout
    × IsNotNegative def.write_timeout
