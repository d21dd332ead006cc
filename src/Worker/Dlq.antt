-- ===== src/Worker/Dlq.antt =====
-- exception_handlers.py and dlq.py: the dead-letter middleware.
pub mod Laws
use gex_test_jonatha.Prelude.{
  String, Bool, true, false, Option, none, some, List, [], ◌∷◌, ◌==◌, not, if◌then◌else◌,
}
use gex_test_jonatha.Prelude.Strings.{◌+++◌, is_empty}
use gex_test_jonatha.Exec.{
  Exn, json_decode, type_error, attribute_error, value_error, describe, Result, ok, raise, and_then,
  Exec, pure, lift, continue, ◌>>=◌, ◌>>◌,
}
use gex_test_jonatha.Json.{
  Json, Fields, Items, null, bool, integer, real, text, list, dict, end, field, nil, cons, get,
  get_or, type_name,
}
use gex_test_jonatha.Common.Config.{queue_lead_received, queue_dist_sms}
use gex_test_jonatha.Common.Models.{DlqMessage}
use gex_test_jonatha.Common.Library.{Library, Bytes}
use gex_test_jonatha.World.{World, dead}
use gex_test_jonatha.Worker.Consumer.{broker_message, broker_publish}

-- What the middleware reads of a `RabbitMessage`: its routing key and its body.
pub record RabbitMessage : Type 0 where
  pub routing_key : Option String
  pub body : Bytes

-- `_DLQ_ROUTES.get(rk)`: the dead-letter queue and its exchange
abbrev pub dlq_route : Option String → Option (String × String)
dlq_route none = none
dlq_route (some rk) =
    if rk == queue_lead_received
    then some ("lead.dead.consumer_failed", "lead")
    else if rk == queue_dist_sms
    then some ("dist.dead.sms", "dist")
    else none

-- `_body_dict`: JSONDecodeError and TypeError become an empty dict
abbrev pub or_empty : Result Json → Result Json
or_empty (raise (json_decode _)) = ok (dict end)
or_empty (raise (type_error _)) = ok (dict end)
or_empty r = r

-- `get_dlq_correlation_id`, by what the context gives
abbrev pub dlq_correlation_id : Result String → String
dlq_correlation_id (ok id) = id
dlq_correlation_id (raise _) = "no-correlation-id"

-- `payload.get`, which only a dict has
abbrev pub fields_of : Json → Result Fields
fields_of (dict d) = ok d
fields_of v = raise (attribute_error ("'" +++ type_name v +++ "' object has no attribute 'get'"))

module _ (l : Library) where
  -- `bool(v)`
  abbrev pub is_truthy : Json → Bool
  is_truthy null = false
  is_truthy (bool b) = b
  is_truthy (integer n) = l.is_nonzero n
  is_truthy (real n) = l.is_nonzero n
  is_truthy (text s) = not (is_empty s)
  is_truthy (list nil) = false
  is_truthy (list (cons _ _)) = true
  is_truthy (dict end) = false
  is_truthy (dict (field _ _ _)) = true

  -- a field of `DLQMessage` that pydantic wants to be a text
  abbrev pub as_str : Json → Result String
  as_str (text s) = ok s
  as_str v = raise (value_error "ValidationError" (l.dlq_payload_error v))

  -- `payload.get("correlation_id") or get_dlq_correlation_id()`
  abbrev pub correlation_of : Fields → Result String → Json
  correlation_of d context =
      let v = get_or d "correlation_id" null in
      if is_truthy v then v else text (dlq_correlation_id context)

  unfoldable pub build_dlq_message : Fields → Exn → String → Result String → Result DlqMessage
  build_dlq_message d e dlq_queue context =
      and_then (as_str (get_or d "gateway" (text "unknown"))) λ gateway.
        and_then (as_str (correlation_of d context)) λ correlation_id. ok (record {
          original_payload = dict d;
          error_reason = describe e;
          gateway = gateway;
          correlation_id = correlation_id;
          queue_origin = dlq_queue;
        })

  unfoldable pub publish_dead :
      RabbitMessage → Exn → Result String → String × String → Exec World (Option Bool)
  unfolding build_dlq_message broker_publish
  publish_dead msg e context (dlq_queue, exchange) = do
    payload ← lift (or_empty (l.loads_bytes msg.body))
    d ← lift (fields_of payload)
    dlq_msg ← lift (build_dlq_message d e dlq_queue context)
    broker_publish (broker_message exchange dlq_queue (dead dlq_msg))
    pure (some false)

  -- `after_processed`, by the exception, the message and whether the context has a broker
  unfoldable pub after_processed :
      Option Exn → Option RabbitMessage → Bool → Result String → Exec World (Option Bool)
  unfolding publish_dead
  after_processed none msg has_broker context = pure none
  after_processed (some e) none has_broker context = pure (some false)
  after_processed (some e) (some msg) has_broker context =
      if not has_broker then pure (some false) else elim (dlq_route msg.routing_key) [
        | none ↦ pure (some false)
        | some route ↦ publish_dead msg e context route
      ]
