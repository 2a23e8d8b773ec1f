-- ===== src/Quickstart/App/Ends.antt =====
-- examples/quickstart/main.go: what `main` leaves of the pool that it opened.
use luima.Prelude.{ℕ, ◌*◌, Bool, false, not, [], Option, some, ◌≡◌, refl, Text, text_eq}
use luima.Prelude.Int.{pos}
use luima.Server.RateLimit.{second}
use luima.Db.{Url, Driver, PgConfig, Pool, Opened, failed, Failure, ping_failed, connector}
use luima.Db.Closed.{IsOpened, Ends, no_config, connected, unreached, connect_with-Ends}
use luima.Root.{connect_with, statement_timeout}
use luima.Quickstart.App.{MainEnd, fatal, finished, main_with, main}

abbrev pub main_tune : Option (PgConfig → PgConfig)
main_tune = some (statement_timeout (pos (5 * second)))

module _ (p : Pool) (num_cpu : ℕ) (parse : Text → Option Url) (driver : Driver) (def : PgConfig)
    (env : Text) (is_open : p.Db → p.World → Bool)
    (close-closes : (db : p.Db) (w : p.World) → is_open db (p.close db w) ≡ false) (E : Type 0)
    (serve : Bool → p.Db → p.World → p.World × Option E) where
  -- The pool that ConnectWith opened for main, with a statement timeout of five seconds.
  abbrev pub IsMainPool : Text → p.World → p.Db → Type 0
  IsMainPool url w db =
      (cfg : PgConfig) × (w1 : p.World) × IsOpened p num_cpu parse driver def env is_open
        close-closes url main_tune w cfg w1 db

  -- How main may end: `connector` had an error, and the world is as it was; or the pool that it opened is closed,
  -- after a ping that failed, or after the server has run over it.
  pub data Leaves (dev : Bool) (url : Text) (w : p.World) : p.World × MainEnd E → Type 0 where
    never_opened :
        (f : Failure)
        → connector parse driver def env url ≡ failed f
        → Leaves dev url w (w, fatal f)
    never_reached :
        (db : p.Db) (e : Text) (w' : p.World)
        → IsMainPool url w db
        → is_open db w' ≡ false
        → Leaves dev url w (w', fatal (ping_failed e))
    ran :
        (db : p.Db) (r : Option E) (w1 w2 w' : p.World)
        → IsMainPool url w db
        → serve dev db w1 ≡ (w2, r)
        → is_open db w' ≡ false
        → Leaves dev url w (w', finished r)

  main_with-Leaves :
      (dev : Bool) (url : Text) (w : p.World) (x : p.World × Opened p.Db)
      → Ends p num_cpu parse driver def env is_open close-closes url main_tune w x
      → Leaves dev url w (main_with p num_cpu parse driver def env E serve dev x)
  unfolding main_with
  main_with-Leaves dev url w _ (no_config f e) = never_opened f e
  main_with-Leaves dev url w _ (connected cfg db t w1 w2 w3 opened bounded e) =
      ran db (serve dev db w3).1 w3 (serve dev db w3).0 _ (cfg, w1, opened) refl
        (close-closes db (serve dev db w3).0)
  main_with-Leaves dev url w _ (unreached cfg db e t w1 w2 w3 w' opened pinged closed) =
      never_reached db e w' (cfg, w1, opened) closed

  -- Where closing a pool leaves it closed: whatever the environment and the server that runs, main ends with
  -- the pool that it opened closed, by log.Fatal behind a ping that failed as well as when the server has run over
  -- it, or it has opened none, for the error of `connector`, and the world is as it was.
  pub main-Leaves :
      (luima_dev url : Text) (w : p.World)
      → Leaves
          (not (text_eq luima_dev []))
          url
          w
          (main p num_cpu parse driver def env E serve luima_dev url w)
  unfolding main connect_with
  main-Leaves luima_dev url w =
      main_with-Leaves (not (text_eq luima_dev [])) url w _
        (connect_with-Ends p num_cpu parse driver def env is_open close-closes url main_tune w)
