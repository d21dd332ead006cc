-- ===== src/Worker/Dlq/Laws.antt =====
-- What the dead-letter middleware publishes, and what it lets through.
use gex_test_jonatha.Prelude.{◌≡◌, String, true, false, some, [], ◌∷◌, ◌++◌}
use gex_test_jonatha.Prelude.Strings.{is_empty}
use gex_test_jonatha.Exec.{Exn, json_decode, attribute_error, describe, Result, ok, raise}
use gex_test_jonatha.Json.{Fields, Items, text, list, dict, end, get_or, null}
use gex_test_jonatha.Common.Library.{Library}
use gex_test_jonatha.World.{World, Published, dead}
use gex_test_jonatha.Worker.Consumer.{broker_message, broker_publish}
use gex_test_jonatha.Worker.Consumer.Laws.{quiet}
use gex_test_jonatha.Worker.Dlq.{
  RabbitMessage, dlq_route, dlq_correlation_id, build_dlq_message, publish_dead, after_processed,
}

-- The dead letter of a message that carried `payload`.
abbrev pub dead_letter_of : String → String → Fields → Exn → String → String → Published
dead_letter_of dlq_queue exchange payload e gateway correlation_id =
    broker_message exchange dlq_queue (
      dead (record {
        original_payload = dict payload;
        error_reason = describe e;
        gateway = gateway;
        correlation_id = correlation_id;
        queue_origin = dlq_queue;
      }))

module _ (l : Library) (msg : RabbitMessage) (e : Exn) (context : Result String) where
  -- The last failure of a message from a queue with a dead-letter queue: one dead letter carries the
  -- payload, its gateway and its correlation id, which is a text that is not empty, and the
  -- exception is let through, while no call raises.
  pub after_processed_dead :
      (w : World) (dlq_queue exchange gateway correlation_id : String) (d : Fields)
      → dlq_route msg.routing_key ≡ some (dlq_queue, exchange)
      → l.loads_bytes msg.body ≡ ok (dict d)
      → get_or d "gateway" (text "unknown") ≡ text gateway
      → get_or d "correlation_id" null ≡ text correlation_id
      → is_empty correlation_id ≡ false
      → after_processed l (some e) (some msg) true context (quiet w) ≡ (
        ok (some false),
        record (quiet w) {
          published =
              w.published ++ dead_letter_of dlq_queue exchange d e gateway correlation_id ∷ [];
        },
      )
  unfolding after_processed publish_dead build_dlq_message broker_publish
  after_processed_dead w q x g c d route loads has_gateway has_id filled =
      rw (route, loads, has_gateway, has_id, filled)

  -- A body that is no JSON is dead-lettered with an empty payload, an unknown gateway and the
  -- context's correlation id, and the exception is let through, while no call raises.
  pub after_processed_undecodable :
      (w : World) (dlq_queue exchange m : String)
      → dlq_route msg.routing_key ≡ some (dlq_queue, exchange)
      → l.loads_bytes msg.body ≡ raise (json_decode m)
      → after_processed l (some e) (some msg) true context (quiet w) ≡ (
        ok (some false),
        record (quiet w) {
          published =
              w.published
              ++ dead_letter_of dlq_queue exchange end e "unknown" (dlq_correlation_id context)
                ∷ [];
        },
      )
  unfolding after_processed publish_dead build_dlq_message broker_publish
  after_processed_undecodable w q x m route loads = rw (route, loads)

  -- A body that is a JSON list loses the message: `payload.get` raises, nothing is published, and
  -- the middleware's own exception takes the place of the message's.
  pub after_processed_list :
      (w : World) (route : String × String) (items : Items)
      → dlq_route msg.routing_key ≡ some route
      → l.loads_bytes msg.body ≡ ok (list items)
      → after_processed l (some e) (some msg) true context w
        ≡ (raise (attribute_error "'list' object has no attribute 'get'"), w)
  unfolding after_processed publish_dead
  after_processed_list w route items known loads = rw (known, loads)
