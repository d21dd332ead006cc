-- ===== src/Receiver/Publisher.antt =====
-- publishers.py: `RabbitMQPublisher`. Its attributes are part of the world, as flags.
pub mod Laws
use gex_test_jonatha.Prelude.{
  String, Bool, true, false, Option, none, some, List, [], ◌∷◌, ◌++◌, if◌then◌else◌,
}
use gex_test_jonatha.Prelude.Strings.{str_take}
use gex_test_jonatha.Exec.{Exec, runtime_error, throw, pure, gets, modify, continue, ◌>>=◌, ◌>>◌}
use gex_test_jonatha.Common.Config.{
  queue_lead_received, queue_dlq_decrypt_failed, queue_dlq_schema_failed, queue_dlq_consumer_failed,
  queue_dist_sms, queue_dist_email, queue_dist_callcenter, queue_dist_whatsapp, queue_dist_dlq_sms,
}
use gex_test_jonatha.Common.Models.{LeadReceivedMessage, DistributionMessage, DlqMessage}
use gex_test_jonatha.World.{
  World, Publisher, Declaration, exchange, queue, binding, direct, Body, lead, distribution, dead,
  Published,
}
use gex_test_jonatha.World.Calls.{call, send}

abbrev pub set_publisher : (Publisher → Publisher) → World → World
set_publisher f w = record w { publisher = f w.publisher }

abbrev pub record_declaration : Declaration → World → World
record_declaration d w = record w { topology = w.topology ++ d ∷ [] }

unfoldable pub declare : Declaration → Exec World (Unit {0})
declare d = do call; modify (record_declaration d)

-- a queue, and its binding to an exchange under its own name
unfoldable pub declare_bound : String → Option String → String → Exec World (Unit {0})
unfolding declare
declare_bound name dead_letter on = do
  declare (queue name dead_letter)
  declare (binding name on name)

unfoldable pub declare_all : List String → String → Exec World (Unit {0})
unfolding declare_bound
declare_all [] on = pure tt
declare_all (name ∷ names) on = do declare_bound name none on; declare_all names on

unfoldable pub connect : Exec World (Unit {0})
connect = do
  call
  modify (set_publisher (λ p. record p { connection = true }))
  call
  modify (set_publisher (λ p. record p { channel = true }))

unfoldable pub declare_queues : Exec World (Unit {0})
unfolding declare_bound declare_all declare
declare_queues = do
  declare (exchange "lead" direct)
  modify (set_publisher (λ p. record p { exchange_lead = true }))
  declare (exchange "dist" direct)
  modify (set_publisher (λ p. record p { exchange_dist = true }))
  declare_bound queue_lead_received (some "dlq") "lead"
  declare_all (queue_dlq_decrypt_failed ∷ queue_dlq_schema_failed ∷ queue_dlq_consumer_failed ∷ [])
      "lead"
  declare_bound queue_dist_sms (some "dlq") "dist"
  declare_all (queue_dist_email ∷ queue_dist_callcenter ∷ queue_dist_whatsapp ∷ []) "dist"
  declare_bound queue_dist_dlq_sms none "dist"

unfoldable pub declare_topology : Exec World (Unit {0})
unfolding declare_queues
declare_topology = do
  channel ← gets (λ w. w.publisher.channel)
  if channel
      then declare_queues
      else throw (runtime_error "connect() must be called before declare_topology()")

-- `_publish`; `declared` says whether the exchange's attribute is set
unfoldable pub publish :
    Bool → String → Body → String → String → List (String × String) → Exec World (Unit {0})
publish declared on body correlation_id routing_key extra_headers =
    if declared
    then (do
      call
      modify (
          send (record {
            exchange = on;
            routing_key = routing_key;
            headers = ("x-correlation-id", correlation_id) ∷ extra_headers;
            correlation_id = some correlation_id;
            expiration_ms = none;
            body = body;
          })))
    else throw (runtime_error "declare_topology() must be called before publishing")

unfoldable pub publish_lead_received : LeadReceivedMessage → Exec World (Unit {0})
unfolding publish
publish_lead_received msg = do
  declared ← gets (λ w. w.publisher.exchange_lead)
  publish declared "lead" (lead msg) msg.correlation_id queue_lead_received []

unfoldable pub publish_dlq : DlqMessage → String → Exec World (Unit {0})
unfolding publish
publish_dlq msg queue_name = do
  declared ← gets (λ w. w.publisher.exchange_lead)
  publish declared "lead" (dead msg) msg.correlation_id queue_name
      (("x-error-reason", str_take 200 msg.error_reason) ∷ [])

unfoldable pub publish_distribution : DistributionMessage → String → Exec World (Unit {0})
unfolding publish
publish_distribution msg queue_name = do
  declared ← gets (λ w. w.publisher.exchange_dist)
  publish declared "dist" (distribution msg) msg.correlation_id queue_name []

unfoldable pub close : Exec World (Unit {0})
close = do
  connected ← gets (λ w. w.publisher.connection)
  if connected
      then (do
        call
        modify (
            set_publisher (λ _. record {
              connection = false;
              channel = false;
              exchange_lead = false;
              exchange_dist = false;
            })))
      else pure tt
