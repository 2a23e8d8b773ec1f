-- ===== src/Root.antt =====
-- luima.go: the root package, each of its functions as the call of the package behind it.
use luima.Prelude.{ℕ, Bool, List, Option, Text}
use luima.Prelude.Int.{ℤ}
use luima.Luimaerr.Errors
use luima.Luimaerr.Errors.{GoError}
use luima.Luimaerr.Context.{Context}
use luima.Luimaerr.Present
use luima.Luimaerr.Present.{Answer}
use luima.Server.Http.{HttpRequest, Header, Handler, Response}
use luima.Server.RateLimit
use luima.Server.RateLimit.{Limiter}
use luima.Server.Cors
use luima.Server.Cors.{CorsConfig}
use luima.Server.Mount
use luima.Server.Mount.{Platform, Config, Call, HttpHandler, Mounted}
use luima.Server.Run
use luima.Server.Run.{Begun}
use luima.Db
use luima.Db.{Url, Driver, PgConfig, Pool, Opened}
use luima.Crud
use luima.Crud.{Bun, Slice, Result}

unfoldable pub present_error : Context → GoError → Answer
present_error = Present.present_error

unfoldable pub sql_state : GoError → Text
sql_state = Errors.sql_state

unfoldable pub cors : CorsConfig → Handler → Handler
cors = Cors.cors

unfoldable pub rate_limit :
    ℕ
    → ℕ
    → Option (HttpRequest → Text)
    → Handler
    → ℕ
    → HttpRequest
    → Header
    → Limiter
    → Limiter × Response
rate_limit = RateLimit.rate_limit

-- `New`, as the two timeouts of the application that it builds and the routes that are mounted on it.
module _ (p : Platform) (serve : p.Schema → List (Call p) → HttpHandler p) where
  unfoldable pub new : Config p → (ℤ × ℤ) × Mounted p
  new cfg = (Mount.new_timeouts cfg, Mount.mount p serve cfg)

  unfoldable pub mount : Config p → Mounted p
  mount = Mount.mount p serve

-- `Run`, as where it has a listener and the steps that it takes from there.
module _ (E : Type 0) where
  unfoldable pub run : Bool → Option E → Bool → Begun E
  run = Run.begin E

unfoldable pub statement_timeout : ℤ → PgConfig → PgConfig
statement_timeout = Db.statement_timeout

module _ (p : Pool) (num_cpu : ℕ) (parse : Text → Option Url) (driver : Driver) (def : PgConfig)
    (env : Text) where
  unfoldable pub connect : Text → p.World → p.World × Opened p.Db
  connect = Db.connect p num_cpu parse driver def env

  unfoldable pub connect_with :
      Text → Option (PgConfig → PgConfig) → p.World → p.World × Opened p.Db
  connect_with = Db.connect_with p num_cpu parse driver def env

module _ {T : Type 0} (bun : Bun T) where
  open bun use {Database, SelectQuery, InsertQuery, UpdateQuery, DeleteQuery}

  unfoldable pub get :
      Database → T → List (SelectQuery → SelectQuery) → Database × Result (Option T)
  get = Crud.get bun

  unfoldable pub list : Database → List (SelectQuery → SelectQuery) → Database × Result (Slice T)
  list = Crud.list bun

  unfoldable pub create :
      Database → T → Text → List (InsertQuery → InsertQuery) → Database × Result (Option T)
  create = Crud.create bun

  unfoldable pub update :
      Database → T → Text → List (UpdateQuery → UpdateQuery) → Database × Result T
  update = Crud.update bun

  unfoldable pub delete : Database → T → List (DeleteQuery → DeleteQuery) → Database × Result Bool
  delete = Crud.delete bun
