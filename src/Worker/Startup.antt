-- ===== src/Worker/Startup.antt =====
-- The hooks of the worker's main.py at startup and shutdown, and the database singleton of its db.py.
pub mod Laws
pub mod Sessions
use gex_test_jonatha.Prelude.{
  ℕ, ◌+◌, ◌-◌, String, Bool, true, false, none, some, List, [], ◌∷◌, if◌then◌else◌,
}
use gex_test_jonatha.Common.Models.{LeadReceivedMessage}
use gex_test_jonatha.Common.Library.{Library}
use gex_test_jonatha.Common.Config.{AppSettings}
use gex_test_jonatha.Common.Logging.{Loggers, setup_logging}
use gex_test_jonatha.World.Calls.{call}
use gex_test_jonatha.World.Session.{with_session}
use gex_test_jonatha.Worker.Consumer.{process_lead}
use gex_test_jonatha.Exec.{
  Result, Exec, runtime_error, throw, pure, gets, modify, continue, ◌>>=◌, ◌>>◌,
}
use gex_test_jonatha.Common.Config.{
  queue_lead_received, queue_dlq_decrypt_failed, queue_dlq_schema_failed, queue_dlq_consumer_failed,
  queue_dist_sms, queue_dist_dlq_sms,
}
use gex_test_jonatha.World.{World, exchange, queue, direct, fanout}
use gex_test_jonatha.Receiver.Publisher.{declare}

-- The worker declares queues and binds none: its subscribers bind theirs.
unfoldable pub declare_worker_topology : Exec World (Unit {0})
unfolding declare
declare_worker_topology = do
  declare (exchange "lead" direct)
  declare (exchange "dist" direct)
  declare (exchange "dlq" fanout)
  declare (queue queue_lead_received (some "dlq"))
  declare (queue queue_dlq_decrypt_failed none)
  declare (queue queue_dlq_schema_failed none)
  declare (queue queue_dlq_consumer_failed none)
  declare (queue queue_dist_sms (some "dlq"))
  declare (queue queue_dist_dlq_sms none)

-- The queues and the exchanges of the two subscribers, `handle_lead` and `handle_sms`.
abbrev pub subscriptions : List (String × String)
subscriptions = (queue_lead_received, "lead") ∷ (queue_dist_sms, "dist") ∷ []

-- The worker's process: whether `_engine` and `_factory` are set, and how many engines are open.
pub record Process : Type 0 where
  pub world : World
  pub loggers : Loggers
  pub engine : Bool
  pub factory : Bool
  pub engines : ℕ

abbrev pub back : {A : Type 0} → Process → Result A × World → Result A × Process
back p (r, w) = (r, record p { world = w })

-- a call of the world's, made by the process
abbrev pub on_world : {A : Type 0} → Exec World A → Exec Process A
on_world m p = back p (m p.world)

abbrev pub relog : {A : Type 0} → Process → Result A × Loggers → Result A × Process
relog p (r, ls) = (r, record p { loggers = ls })

abbrev pub on_loggers : {A : Type 0} → Exec Loggers A → Exec Process A
on_loggers m p = relog p (m p.loggers)

-- the making of an engine may raise
unfoldable pub init_db : Exec Process (Unit {0})
init_db = do
  made ← gets (λ p. p.engine)
  if made then pure tt else (do
    on_world call
    modify (λ p. record p { engine = true; engines = p.engines + 1 })
    modify (λ p. record p { factory = true }))

-- so may its disposal
unfoldable pub close_db : Exec Process (Unit {0})
close_db = do
  made ← gets (λ p. p.engine)
  if made then (do on_world call; modify (λ p. record p { engines = p.engines - 1 })) else pure tt
  modify (λ p. record p { engine = false; factory = false })

-- `async with db_session() as session`, around a block
unfoldable pub db_session : {A : Type 0} → Exec World A → Exec Process A
unfolding with_session
db_session block = do
  made ← gets (λ p. p.factory)
  if made
      then on_world (with_session block)
      else throw (runtime_error "init_db() must be called before db_session()")

-- the hooks of main.py before the broker starts and after it stops; `upper` is `str.upper`
unfoldable pub setup : (String → String) → AppSettings → Exec Process (Unit {0})
unfolding init_db
setup upper app_settings = do on_loggers (setup_logging upper app_settings.log_level); init_db

unfoldable pub teardown : Exec Process (Unit {0})
unfolding close_db
teardown = close_db

-- `handle_lead` of main.py as the process runs it
unfoldable pub on_lead : Library → LeadReceivedMessage → String → Exec Process (Unit {0})
unfolding db_session
on_lead l msg correlation_id = db_session (process_lead l msg correlation_id)
