-- ===== src/Receiver/Routes/Keeps.antt =====
-- What `receive_webhook` keeps, if the calls that it makes keep it.
use gex_test_jonatha.Prelude.{
  ◌≡◌, refl, String, Bool, false, true, arith, eq_iff, Option, List, not,
}
use gex_test_jonatha.Exec.{Exn, http, pure, modify, ◌>>=◌, ◌>>◌}
use gex_test_jonatha.Exec.Keeps.{
  Keeps, Keeps-bind, Keeps-then, Keeps-pure, Keeps-if, Keeps-when, Keeps-throw, Keeps-lift,
  Keeps-catch, Keeps-continue,
}
use gex_test_jonatha.Json.{Json}
use gex_test_jonatha.Common.Config.{
  status_duplicate, status_accepted, status_discarded_non_approved, AppSettings, is_valid_gateway,
  event_order_approved,
}
use gex_test_jonatha.Common.Models.{Time, WebhookPayload, LeadReceivedMessage, DlqMessage}
use gex_test_jonatha.Common.Library.{Library}
use gex_test_jonatha.World.{World, RawPayload, Published, Body, lead, ProcessedEvent, is_first}
use gex_test_jonatha.World.Calls.{call, send, new_uuid7, write}
use gex_test_jonatha.Receiver.Db.{
  insert_raw_payload, insert_event, check_idempotency, add_raw_payload,
}
use gex_test_jonatha.Receiver.Publisher.{publish, publish_lead_received, publish_dlq}
use gex_test_jonatha.Receiver.Routes.{
  Request, Verdict, decrypt_failed, schema_failed, accepted, broken, is_approved, insert_and_return,
  plain_result, lead_message, fail_and_return, route, duplicate, accept, act, unavailable,
  read_body, receive_webhook,
}

-- A lead that is sent is of an approved order.
abbrev pub IsApproved : Body → Type 0
IsApproved (lead m) = m.event ≡ event_order_approved
IsApproved _ = Unit {0}

is_approved-event : (p : WebhookPayload) → is_approved p ≡ true → p.event ≡ event_order_approved
is_approved-event p h = ground (arith, eq_iff p.event event_order_approved)

-- What the calls of a handler with this correlation id keep.
pub record KeepsCalls (l : Library) (own : String) (P : World → Type 0) : Type 0 where
  pub calls : Keeps P call
  pub new_id : Keeps P (new_uuid7 l)
  pub payload : (r : RawPayload) → Keeps P (modify (write (add_raw_payload r)))
  pub event : (r : ProcessedEvent) → r.correlation_id ≡ own → Keeps P (insert_event l r)
  pub sends : (p : Published) → is_first p ≡ false → IsApproved p.body → Keeps P (modify (send p))

module _ (l : Library) (own : String) (P : World → Type 0) (k : KeepsCalls l own P) where
  insert_raw_payload-Keeps :
      (gateway : String) (received_at : Time) (headers : List (String × String))
      (original decrypted : Json) (status : String) (error : Option String) (cid : String)
      → Keeps P
          (insert_raw_payload l gateway received_at headers original decrypted status error cid)
  unfolding insert_raw_payload
  insert_raw_payload-Keeps gateway received_at headers original decrypted status error cid =
      record {
        at = λ w h.
            Keeps-continue _ (call (new_uuid7 l w).1)
              (λ _. Keeps-then _ _ (k.payload _) (Keeps-pure _)) (k.calls.at _ (k.new_id.at w h));
      }

  check_idempotency-Keeps :
      (gateway transaction_id event cid : String)
      → cid ≡ own
      → Keeps P (check_idempotency l gateway transaction_id event cid)
  unfolding check_idempotency insert_event
  check_idempotency-Keeps gateway transaction_id event cid same = record {
    at = λ w h.
        Keeps-continue _ (call (new_uuid7 l w).1)
          (λ _. record { at = λ w' h'. (k.event _ same).at w' h' })
          (k.calls.at _ (k.new_id.at w h));
  }

  publish-Keeps :
      (declared : Bool) (on : String) (body : Body) (cid key : String)
      (headers : List (String × String))
      → IsApproved body
      → Keeps P (publish declared on body cid key headers)
  unfolding publish
  publish-Keeps declared on body cid key headers a =
      Keeps-if declared _ _ (Keeps-then _ _ k.calls (k.sends _ refl a)) (Keeps-throw _)

  publish_lead_received-Keeps :
      (m : LeadReceivedMessage) → m.event ≡ event_order_approved → Keeps P (publish_lead_received m)
  unfolding publish_lead_received
  publish_lead_received-Keeps m a = record {
    at = λ w h. (publish-Keeps w.publisher.exchange_lead _ _ _ _ _ a).at w h;
  }

  publish_dlq-Keeps : (m : DlqMessage) (q : String) → Keeps P (publish_dlq m q)
  unfolding publish_dlq
  publish_dlq-Keeps m q = record {
    at = λ w h. (publish-Keeps w.publisher.exchange_lead _ _ _ _ _ tt).at w h;
  }

  module _ (s : AppSettings) (req : Request) (same : req.correlation_id ≡ own) where
    fail_and_return-Keeps :
        (original decrypted payload : Json) (status reason queue : String)
        → Keeps P (fail_and_return l s req original decrypted status reason payload queue)
    unfolding fail_and_return
    fail_and_return-Keeps original decrypted payload status reason queue =
        Keeps-then _ _ (insert_raw_payload-Keeps _ _ _ _ _ _ _ _) (
          Keeps-bind _ _ (Keeps-lift _)
            λ msg. Keeps-then _ _ (publish_dlq-Keeps msg queue) (Keeps-pure _))

    insert_and_return-Keeps :
        (raw body : Json) (status : String) → Keeps P (insert_and_return l s req raw body status)
    unfolding insert_and_return
    insert_and_return-Keeps raw body status = insert_raw_payload-Keeps _ _ _ _ _ _ _ _

    duplicate-Keeps : (raw body : Json) → Keeps P (duplicate l s req raw body)
    unfolding duplicate
    duplicate-Keeps raw body =
        Keeps-then _ _ (insert_and_return-Keeps raw body status_duplicate) (Keeps-pure _)

    accepted-Keeps :
        (p : WebhookPayload)
        → p.event ≡ event_order_approved
        → Keeps P (do
          event_id ← new_uuid7 l
          publish_lead_received (lead_message l s req p event_id)
          pure {S = World} (plain_result l s req status_accepted))
    unfolding lead_message
    accepted-Keeps p a = record {
      at = λ w h.
          (Keeps-then _ _
              (publish_lead_received-Keeps (lead_message l s req p (l.uuid7 w.uuid_count)) a)
              (Keeps-pure _)).at
            _ (k.new_id.at w h);
    }

    route-Keeps : (raw body : Json) (p : WebhookPayload) → Keeps P (route l s req raw body p)
    unfolding route
    route-Keeps raw body p =
        Keeps-when (is_approved p) _ _
          (λ a.
            Keeps-then _ _ (insert_and_return-Keeps raw body status_accepted)
              (accepted-Keeps p (is_approved-event p a)))
          (Keeps-then _ _ (insert_and_return-Keeps raw body status_discarded_non_approved)
            (Keeps-pure _))

    accept-Keeps : (raw body : Json) (p : WebhookPayload) → Keeps P (accept l s req raw body p)
    unfolding accept
    accept-Keeps raw body p =
        Keeps-bind _ _ (check_idempotency-Keeps _ _ _ _ same)
          λ is_new. Keeps-if is_new _ _ (route-Keeps raw body p) (duplicate-Keeps raw body)

    act-Keeps : (raw : Json) (v : Verdict) → Keeps P (act l s req raw v)
    unfolding act
    act-Keeps raw (decrypt_failed reason) = fail_and_return-Keeps _ _ _ _ _ _
    act-Keeps raw (schema_failed body reason) = fail_and_return-Keeps _ _ _ _ _ _
    act-Keeps raw (accepted body p) = accept-Keeps raw body p
    act-Keeps raw (broken e) = Keeps-throw e

    unavailable-Keeps : (e : Exn) → Keeps P (unavailable l s e)
    unavailable-Keeps (http status reason) = Keeps-throw _
    unavailable-Keeps _ = Keeps-pure _

    pub receive_webhook-Keeps : Keeps P (receive_webhook l s req)
    unfolding receive_webhook
    receive_webhook-Keeps = Keeps-if (not (is_valid_gateway req.gateway)) _ _ (Keeps-throw _) (
        Keeps-bind _ _ (Keeps-lift (read_body l s req.body))
          λ raw. Keeps-catch _ _ (act-Keeps raw _) unavailable-Keeps)
