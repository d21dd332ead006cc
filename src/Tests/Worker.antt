-- ===== src/Tests/Worker.antt =====
-- The theorems on the worker, applied.
use gex_test_jonatha.Common.Config.{default_settings}
use gex_test_jonatha.Prelude.{ℕ, suc, ◌≡◌, refl, true, false, some, [], ◌∷◌, ◌++◌, ◌+◌, arith, take}
use gex_test_jonatha.Exec.{Exec, ok, raise, attribute_error, transient}
use gex_test_jonatha.Json.{list, nil}
use gex_test_jonatha.Common.Library.{Library}
use gex_test_jonatha.Worker.Procedure.{sp_insert_lead}
use gex_test_jonatha.Worker.Procedure.Laws.{sp_insert_lead_again}
use gex_test_jonatha.Worker.Consumer.{handle_lead}
use gex_test_jonatha.Worker.Consumer.Laws.{
  handle_lead-quiet, lost_distributions, quiet, persisted, due, failing_after, parameters_at,
}
use gex_test_jonatha.Worker.Procedure.Unique.{IsUnique}
use gex_test_jonatha.World.{empty_tables, World, exchange, queue, binding, direct}
use gex_test_jonatha.Prelude.{All}
use gex_test_jonatha.Worker.Retry.{retry_loop, consume_with_retry}
use gex_test_jonatha.Worker.Retry.Laws.{retry_loop_failing}
use gex_test_jonatha.Worker.Dlq.{RabbitMessage, after_processed}
use gex_test_jonatha.Worker.Dlq.Laws.{after_processed_dead, after_processed_list, dead_letter_of}
use gex_test_jonatha.Exec.{runtime_error}
use gex_test_jonatha.Prelude.{none}
use gex_test_jonatha.Tests.App.{loggers}
use gex_test_jonatha.Worker.Startup.{
  declare_worker_topology, Process, setup, teardown, on_lead, on_world,
}
use gex_test_jonatha.Worker.Startup.Sessions.{
  starts, stops, uses, act_all, IsOwned, act_all-IsOwned, unfailing, setup_sessions,
}
use gex_test_jonatha.Worker.Startup.Laws.{unbound, IsDropped, worker_alone}
use gex_test_jonatha.Tests.Data.{library, world, lead_received, lead_fields}

handle_lead-quiet_example : handle_lead library lead_received "c1" (quiet world) ≡ (
  ok tt,
  record (quiet (persisted library lead_received "c1" world)) {
    published = [] ++ due library lead_received "c1" world;
  },
)
handle_lead-quiet_example = handle_lead-quiet library lead_received "c1" world

lost_distributions_example :
    let (r, w') =
      consume_with_retry
        (handle_lead library lead_received "c1")
        (record (quiet world) { faults = failing_after 2 "AMQPError" "closed" }) in
    (r ≡ ok tt) × (w'.published ≡ [] ++ take 1 (due library lead_received "c1" world))
unfolding sp_insert_lead
lost_distributions_example =
    lost_distributions library lead_received "c1" 1 "AMQPError" "closed" world refl (omega arith)

sp_insert_lead_again_example :
    let p = parameters_at library lead_received "c1" world in
    let (t1, first) = sp_insert_lead library p 100 world.tables in
    let (t2, second) = sp_insert_lead library p 200 t1 in
    (second.order_id ≡ first.order_id)
    × (second.is_new ≡ false)
    × (t2.lead_events ≡ t1.lead_events)
    × (t2.distribution_status ≡ t1.distribution_status)
sp_insert_lead_again_example =
    let p = parameters_at library lead_received "c1" world in
    sp_insert_lead_again library p p 100 200 world.tables
      (record { gateway = refl; transaction_id = refl; event = refl })

-- a handler that only counts its calls, and one that raises
abbrev failing : Exec ℕ ℕ
failing n = (raise (transient "timeout"), suc n)

retry_loop_failing_example :
    let (r, n) = retry_loop (λ d n. n) (1000 ∷ 4000 ∷ 16000 ∷ []) failing 0 in
    (r ≡ raise (transient "timeout")) × (n ≡ 0 + (3 + 1))
retry_loop_failing_example =
    retry_loop_failing (λ d n. n) (λ n. n) failing (λ d n. refl) (λ n. refl) (transient "timeout")
      (1000 ∷ 4000 ∷ 16000 ∷ []) 0 (λ n. refl)

abbrev from_sms : RabbitMessage
from_sms = record { routing_key = some "dist.sms"; body = 1 ∷ [] }

after_processed_dead_example :
    after_processed library (some (transient "t")) (some from_sms) true (ok "c0") (quiet world) ≡ (
      ok (some false),
      record (quiet world) {
        published =
            []
            ++ dead_letter_of "dist.dead.sms" "dist" lead_fields (transient "t") "lous" "c1" ∷ [];
      },
    )
after_processed_dead_example =
    after_processed_dead library from_sms (transient "t") (ok "c0") world "dist.dead.sms" "dist"
      "lous" "c1" lead_fields refl refl refl refl refl

abbrev empty_body : RabbitMessage
empty_body = record { routing_key = some "lead.received"; body = [] }

-- a library whose `json.loads` gives an empty list
abbrev lists : Library
lists = record library { loads_bytes = λ b. ok (list nil) }

after_processed_list_example :
    after_processed lists (some (transient "t")) (some from_sms) true (ok "c0") world
    ≡ (raise (attribute_error "'list' object has no attribute 'get'"), world)
after_processed_list_example =
    after_processed_list lists from_sms (transient "t") (ok "c0") world ("dist.dead.sms", "dist")
      nil refl refl

pub empty-IsUnique : IsUnique library empty_tables
empty-IsUnique = record {
  leads = λ email. omega arith;
  orders = λ g n. omega arith;
  events = λ o e. omega arith;
  statuses = λ o c. omega arith;
}

-- the process before its start; the second of its calls fails
abbrev stopped : Process
stopped = record {
  world = record world { faults = none ∷ some ("OperationalError", "gone") ∷ [] };
  loggers = loggers;
  engine = false;
  factory = false;
  engines = 0;
}

act_all-IsOwned_example : IsOwned 0 (
    act_all
      (starts (λ s. s) default_settings
        ∷ uses (handle_lead library lead_received "c1")
        ∷ stops
        ∷ starts (λ s. s) default_settings
        ∷ [])
      stopped)
act_all-IsOwned_example =
    act_all-IsOwned 0
      (starts (λ s. s) default_settings
        ∷ uses (handle_lead library lead_received "c1")
        ∷ stops
        ∷ starts (λ s. s) default_settings
        ∷ [])
      stopped (refl, refl)

setup_sessions_example :
    let (r, p1) = setup (λ s. s) default_settings (unfailing stopped) in
    let p2 = (teardown (unfailing p1)).1 in
    (r ≡ ok tt)
    × (on_lead library lead_received "c1" p1 ≡ on_world (handle_lead library lead_received "c1") p1)
    × (on_lead library lead_received "c1" p2
        ≡ (raise (runtime_error "init_db() must be called before db_session()"), p2))
setup_sessions_example =
    setup_sessions 0 (λ s. s) default_settings stopped library lead_received "c1" refl (refl, refl)

-- RabbitMQ once the two subscribers are declared
abbrev subscribed : World
subscribed = record world {
  topology =
      exchange "lead" direct
      ∷ queue "lead.received" (some "dlq")
      ∷ binding "lead.received" "lead" "lead.received"
      ∷ exchange "dist" direct
      ∷ queue "dist.sms" (some "dlq")
      ∷ binding "dist.sms" "dist" "dist.sms"
      ∷ [];
}

worker_alone_example :
    All (IsDropped (declare_worker_topology (quiet subscribed)).1.topology) unbound
worker_alone_example = worker_alone subscribed (tt, (tt, (refl, (tt, (tt, (refl, tt))))))
