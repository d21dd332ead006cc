-- ===== src/Worker/Consumer.antt =====
-- consumers.py, and `handle_lead` of main.py. Logging is left out.
pub mod Laws
use gex_test_jonatha.Prelude.{
  ℕ, ◌-◌, String, Bool, true, false, Option, none, some, List, [], ◌∷◌, leb, if◌then◌else◌,
}
use gex_test_jonatha.Exec.{Exec, ok, pure, gets, modify, continue, ◌>>=◌, ◌>>◌}
use gex_test_jonatha.Common.Config.{
  queue_dist_sms, queue_dist_email, queue_dist_callcenter, queue_dist_whatsapp,
}
use gex_test_jonatha.Common.Models.{Time, LeadReceivedMessage, DistributionMessage, status_text}
use gex_test_jonatha.Common.Library.{Library}
use gex_test_jonatha.World.{World, Body, distribution, Published, Lag, pos, neg}
use gex_test_jonatha.World.Calls.{call, send, new_uuid7}
use gex_test_jonatha.World.Session.{with_session}
use gex_test_jonatha.Worker.Procedure.{Parameters, Outcome, sp_insert_lead}

-- `(later - earlier).total_seconds()`, in microseconds
abbrev pub lag_between : Time → Time → Lag
lag_between earlier later =
    if leb earlier later then pos (later - earlier) else neg (earlier - later)

-- `broker.publish(body, queue, exchange=on)`
abbrev pub broker_message : String → String → Body → Published
broker_message on queue body = record {
  exchange = on;
  routing_key = queue;
  headers = [];
  correlation_id = none;
  expiration_ms = none;
  body = body;
}

unfoldable pub broker_publish : Published → Exec World (Unit {0})
broker_publish p = do call; modify (send p)

-- `dist_publishes`
abbrev pub dist_publishes : List (String × String)
dist_publishes =
    (queue_dist_sms, "SMS")
    ∷ (queue_dist_email, "EMAIL")
    ∷ (queue_dist_callcenter, "CALL_CENTER")
    ∷ (queue_dist_whatsapp, "WHATSAPP")
    ∷ []

abbrev pub distribution_message :
    LeadReceivedMessage → String → String → String → DistributionMessage
distribution_message msg order_id correlation_id channel = record {
  event_id = msg.event_id;
  order_id = some order_id;
  transaction_id = msg.transaction_id;
  channel = channel;
  customer = msg.customer;
  product = msg.product;
  payment = msg.payment;
  gateway = msg.gateway;
  correlation_id = correlation_id;
}

-- the loop over `dist_publishes`
unfoldable pub publish_each :
    LeadReceivedMessage → String → String → List (String × String) → Exec World (Unit {0})
unfolding broker_publish
publish_each msg order_id correlation_id [] = pure tt
publish_each msg order_id correlation_id ((queue, channel) ∷ rest) = do
  broker_publish (
      broker_message "dist" queue
        (distribution (distribution_message msg order_id correlation_id channel)))
  publish_each msg order_id correlation_id rest

module _ (l : Library) (msg : LeadReceivedMessage) (correlation_id : String) where
  -- the parameters of the procedure, from the ids and the time
  abbrev pub parameters_from :
      String → String → String → String → String → String → Time → Parameters
  parameters_from lead_id order_id dist_sms_id dist_email_id dist_callcenter_id dist_whatsapp_id
        now_utc =
      record {
        lead_id = lead_id;
        order_id = order_id;
        event_id = msg.event_id;
        dist_sms_id = dist_sms_id;
        dist_email_id = dist_email_id;
        dist_callcenter_id = dist_callcenter_id;
        dist_whatsapp_id = dist_whatsapp_id;
        email = msg.customer.email;
        first_name = msg.customer.first_name;
        last_name = msg.customer.last_name;
        phone = msg.customer.phone;
        country = msg.customer.country;
        gateway = msg.gateway;
        transaction_id = msg.transaction_id;
        transaction_time = msg.transaction_time;
        event = msg.event;
        product_id = msg.product.id;
        product_name = msg.product.name;
        product_niche = msg.product.niche;
        quantity = msg.product.quantity;
        amount_usd = msg.payment.amount_usd;
        payment_method = msg.payment.method;
        payment_status = status_text msg.payment.status;
        correlation_id = correlation_id;
        lag_seconds = lag_between msg.transaction_time now_utc;
      }

  -- the six ids are drawn first
  unfoldable pub procedure_parameters : Exec World Parameters
  procedure_parameters = do
    lead_id ← new_uuid7 l
    order_id ← new_uuid7 l
    dist_sms_id ← new_uuid7 l
    dist_email_id ← new_uuid7 l
    dist_callcenter_id ← new_uuid7 l
    dist_whatsapp_id ← new_uuid7 l
    now_utc ← gets (λ w. w.now)
    pure (
        parameters_from lead_id order_id dist_sms_id dist_email_id dist_callcenter_id
          dist_whatsapp_id now_utc)

  -- CALL sp_insert_lead: it commits what it does, and the session sees that
  unfoldable pub call_procedure : Parameters → Exec World Outcome
  call_procedure p w =
      let (t, row) = sp_insert_lead l p w.now w.tables in
      (ok row, record w { tables = t; session = t })

  unfoldable pub process_lead : Exec World (Unit {0})
  unfolding procedure_parameters call_procedure publish_each
  process_lead = do
    p ← procedure_parameters
    call
    row ← call_procedure p
    if row.is_new then publish_each msg row.order_id correlation_id dist_publishes else pure tt

  unfoldable pub handle_lead : Exec World (Unit {0})
  unfolding process_lead with_session
  handle_lead = with_session process_lead
