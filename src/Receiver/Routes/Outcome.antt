-- ===== src/Receiver/Routes/Outcome.antt =====
-- What the handler of routes.py answers, publishes and records while MySQL and RabbitMQ work: a
-- specification without calls or sessions.
use gex_test_jonatha.Prelude.{
  ◌+◌, ◌≡◌, String, Bool, true, false, none, some, List, [], ◌∷◌, ◌++◌, any, length, find, not,
  if◌then◌else◌,
}
use gex_test_jonatha.Prelude.Strings.{str_take}
use gex_test_jonatha.Exec.{http, Result, ok, raise}
use gex_test_jonatha.Json.{Json, dict}
use gex_test_jonatha.Common.Config.{
  AppSettings, status_accepted, status_decrypt_failed, status_schema_failed, status_duplicate,
  status_discarded_non_approved, queue_lead_received, queue_dlq_decrypt_failed,
  queue_dlq_schema_failed,
}
use gex_test_jonatha.Common.Models.{WebhookPayload}
use gex_test_jonatha.Common.Library.{Library}
use gex_test_jonatha.World.{World, RawPayload, Body, lead, dead, Published}
use gex_test_jonatha.Receiver.Db.{has_key}
use gex_test_jonatha.Receiver.Db.Laws.{is_old}
use gex_test_jonatha.Receiver.Routes.{
  Request, Response, result, detail, Verdict, decrypt_failed, schema_failed, accepted, broken,
  is_approved, plain_result, lead_message,
}

-- No call raises, and the publisher has declared its exchanges.
abbrev pub calm : World → World
calm w = record w {
  faults = [];
  commit_faults = [];
  publisher = record {
    connection = true;
    channel = true;
    exchange_lead = true;
    exchange_dist = true;
  };
}

pub record Outcome : Type 0 where
  pub response : Result Response
  pub sent : List Published
  -- the status of the row in `raw_payloads`
  pub recorded : List String
  -- a row of `processed_events` has been added
  pub is_new : Bool

abbrev pub on_lead : String → Body → String → List (String × String) → Published
on_lead queue body correlation_id extra = record {
  exchange = "lead";
  routing_key = queue;
  headers = ("x-correlation-id", correlation_id) ∷ extra;
  correlation_id = some correlation_id;
  expiration_ms = none;
  body = body;
}

abbrev pub unavailable_outcome : List String → Outcome
unavailable_outcome recorded = record {
  response = ok (detail 503 "Service temporarily unavailable");
  sent = [];
  recorded = recorded;
  is_new = false;
}

-- A body that fails goes to a dead-letter queue if it is a dict. If it is not, no message can be
-- built, and the sender is told to come back.
abbrev pub refused : Request → String → String → Json → String → Outcome
refused req status reason (dict d) queue = record {
  response = ok (
      result 202 (record {
        status = status;
        correlation_id = req.correlation_id;
        error_detail = some reason;
      }));
  sent =
      on_lead queue
        (dead (record {
          original_payload = dict d;
          error_reason = reason;
          gateway = req.gateway;
          correlation_id = req.correlation_id;
          queue_origin = queue;
        }))
        req.correlation_id (("x-error-reason", str_take 200 reason) ∷ [])
      ∷ [];
  recorded = status ∷ [];
  is_new = false;
}
refused req status reason v queue = unavailable_outcome (status ∷ [])

abbrev pub statuses : List RawPayload → List String
statuses [] = []
statuses (r ∷ rs) = r.processing_status ∷ statuses rs

-- The result, the messages, the committed statuses and the number of committed events.
pub record Implements (o : Outcome) (w : World) (r : Result Response × World) : Type 0 where
  pub response : r.0 ≡ o.response
  pub sent : r.1.published ≡ w.published ++ o.sent
  pub recorded : statuses r.1.tables.raw_payloads ≡ statuses w.tables.raw_payloads ++ o.recorded
  pub events :
      length r.1.tables.processed_events
      ≡ length w.tables.processed_events + (if o.is_new then 1 else 0)

module _ (l : Library) (s : AppSettings) (req : Request) where
  abbrev pub plain_outcome : String → List Published → Bool → Outcome
  plain_outcome status sent is_new = record {
    response = ok (plain_result l s req status);
    sent = sent;
    recorded = status ∷ [];
    is_new = is_new;
  }

  -- for a payload: whether the check finds it old, whether its key has a row, and the event id that
  -- is drawn
  abbrev pub expected_accept : WebhookPayload → Bool → Bool → String → Outcome
  expected_accept p old known event_id =
      if old
      then plain_outcome status_duplicate [] false
      else if is_approved p
      then plain_outcome status_accepted
          (on_lead queue_lead_received (lead (lead_message l s req p event_id)) req.correlation_id
              []
            ∷ [])
          (not known)
      else plain_outcome status_discarded_non_approved [] (not known)

  abbrev pub expected :
      Json → Verdict → (WebhookPayload → Bool) → (WebhookPayload → Bool) → String → Outcome
  expected raw (decrypt_failed reason) old known event_id =
      refused req status_decrypt_failed reason raw queue_dlq_decrypt_failed
  expected raw (schema_failed body reason) old known event_id =
      refused req status_schema_failed reason body queue_dlq_schema_failed
  expected raw (accepted body p) old known event_id = expected_accept p (old p) (known p) event_id
  expected raw (broken (http c m)) old known event_id = record {
    response = raise (http c m);
    sent = [];
    recorded = [];
    is_new = false;
  }
  expected raw (broken e) old known event_id = unavailable_outcome []

  -- the key of the payload has a committed row
  abbrev pub is_known : World → WebhookPayload → Bool
  is_known w p = any (has_key l req.gateway p.transaction_id p.event) w.tables.processed_events

  -- the key has a committed row that an upsert of this request updates, or leaves without counting it
  abbrev pub is_duplicate : World → WebhookPayload → Bool
  is_duplicate w p =
      is_old l req.correlation_id
        (find (has_key l req.gateway p.transaction_id p.event) w.tables.processed_events)
