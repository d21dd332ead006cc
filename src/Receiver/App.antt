-- ===== src/Receiver/App.antt =====
-- main.py of the receiver: `lifespan`, with the `Database` of db.py and what it puts on `app.state`.
pub mod Lifespan
use gex_test_jonatha.Prelude.{ℕ, ◌+◌, ◌-◌, String, Bool, true, false, none, if◌then◌else◌}
use gex_test_jonatha.Exec.{
  Exn, runtime_error, Result, ok, raise, Exec, pure, throw, gets, modify, finished, finally,
  continue, ◌>>=◌, ◌>>◌,
}
use gex_test_jonatha.Common.Config.{AppSettings}
use gex_test_jonatha.Common.Logging.{Loggers, setup_logging}
use gex_test_jonatha.World.{World}
use gex_test_jonatha.World.Calls.{call}
use gex_test_jonatha.Receiver.Publisher

-- Which of the two attributes are not None.
pub record Database : Type 0 where
  pub engine : Bool
  pub session_factory : Bool

abbrev pub no_database : Database
no_database = record { engine = false; session_factory = false }

-- The attributes of `app.state` that are set.
pub record AppState : Type 0 where
  pub db : Bool
  pub rmq_publisher : Bool
  pub settings : Bool

abbrev pub no_state : AppState
no_state = record { db = false; rmq_publisher = false; settings = false }

-- The process: `engines` counts those made and not disposed of.
pub record App : Type 0 where
  pub world : World
  pub loggers : Loggers
  pub database : Database
  pub engines : ℕ
  pub state : AppState

abbrev pub back : {A : Type 0} → App → Result A × World → Result A × App
back a (r, w) = (r, record a { world = w })

-- a call of the world's, made by the process
abbrev pub on_world : {A : Type 0} → Exec World A → Exec App A
on_world m a = back a (m a.world)

abbrev pub relog : {A : Type 0} → App → Result A × Loggers → Result A × App
relog a (r, ls) = (r, record a { loggers = ls })

abbrev pub on_loggers : {A : Type 0} → Exec Loggers A → Exec App A
on_loggers m a = relog a (m a.loggers)

-- the getter of `Database.session_factory`
unfoldable pub session_factory : Exec App (Unit {0})
session_factory = do
  made ← gets (λ a. a.database.session_factory)
  if made
      then pure tt
      else throw
          (runtime_error "Database.connect() must be called before using the session factory")

-- `Database.connect`: the making of an engine may raise
unfoldable pub connect : Exec App (Unit {0})
connect = do
  on_world call
  modify (λ a. record a {
    database = record { engine = true; session_factory = true };
    engines = a.engines + 1;
  })

-- `Database.close`: so may its disposal
unfoldable pub close : Exec App (Unit {0})
close = do
  made ← gets (λ a. a.database.engine)
  if made
      then (do
        on_world call
        modify (λ a. record a { database = no_database; engines = a.engines - 1 }))
      else pure tt

-- `Database(...)`, a new object
abbrev pub new_database : App → App
new_database a = record a { database = no_database }

abbrev pub set_state : (AppState → AppState) → App → App
set_state f a = record a { state = f a.state }

-- `RabbitMQPublisher(...)`, a new object
abbrev pub new_publisher : App → App
new_publisher a = record a {
  world = record a.world {
    publisher = record {
      connection = false;
      channel = false;
      exchange_lead = false;
      exchange_dist = false;
    };
  };
}

-- what stands before the `yield`; `upper` is `str.upper`
unfoldable pub start : (String → String) → AppSettings → Exec App (Unit {0})
unfolding connect
start upper app_settings = do
  on_loggers (setup_logging upper app_settings.log_level)
  modify new_database
  connect
  modify (set_state (λ s. record s { db = true }))
  modify new_publisher
  on_world Publisher.connect
  on_world Publisher.declare_topology
  modify (set_state (λ s. record s { rmq_publisher = true }))
  modify (set_state (λ s. record s { settings = true }))

-- the `finally` block
unfoldable pub stop : Exec App (Unit {0})
unfolding close
stop = do on_world Publisher.close; close

-- `serve` is what happens at the `yield`.
unfoldable pub lifespan : {A : Type 0} → (String → String) → AppSettings → Exec App A → Exec App A
unfolding start stop
lifespan upper app_settings serve = do start upper app_settings; finally serve stop
