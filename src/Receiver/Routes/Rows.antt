-- ===== src/Receiver/Routes/Rows.antt =====
-- Which calls of the handler leave the rows of `raw_payloads` alone.
use gex_test_jonatha.Prelude.{String, Bool, none, some, List, [], ◌∷◌}
use gex_test_jonatha.Exec.Keeps.{Keeps, Keeps-then, Keeps-if, Keeps-throw, Keeps-continue}
use gex_test_jonatha.Common.Models.{LeadReceivedMessage, DlqMessage}
use gex_test_jonatha.Common.Library.{Library}
use gex_test_jonatha.World.{World, RawPayload, Body, Fault}
use gex_test_jonatha.World.Calls.{call, with_fault, new_uuid7}
use gex_test_jonatha.Receiver.Db.{insert_event, check_idempotency}
use gex_test_jonatha.Receiver.Publisher.{publish, publish_lead_received, publish_dlq}

-- what the session sees of the payload rows
module _ (R : List RawPayload → Type 0) where
  abbrev pub Rows : World → Type 0
  Rows w = R w.session.raw_payloads

  with_fault-Rows : (fs : List Fault) (w : World) → Rows w → Rows (with_fault fs w).1
  with_fault-Rows [] w h = h
  with_fault-Rows (none ∷ fs) w h = h
  with_fault-Rows (some (c, m) ∷ fs) w h = h

  pub call-Rows : Keeps Rows call
  call-Rows = record { at = λ w h. with_fault-Rows w.faults w h }

  pub check_idempotency-Rows :
      (l : Library) (gateway transaction_id event cid : String)
      → Keeps Rows (check_idempotency l gateway transaction_id event cid)
  unfolding check_idempotency insert_event
  check_idempotency-Rows l gateway transaction_id event cid = record {
    at = λ w h.
        Keeps-continue {P = Rows} _ (call (new_uuid7 l w).1) (λ _. record { at = λ v k. k })
          (call-Rows.at (new_uuid7 l w).1 h);
  }

  publish-Rows :
      (declared : Bool) (on : String) (body : Body) (cid key : String)
      (headers : List (String × String))
      → Keeps Rows (publish declared on body cid key headers)
  unfolding publish
  publish-Rows declared on body cid key headers =
      Keeps-if declared _ _ (Keeps-then _ _ call-Rows (record { at = λ w h. h })) (Keeps-throw _)

  pub publish_lead_received-Rows : (m : LeadReceivedMessage) → Keeps Rows (publish_lead_received m)
  unfolding publish_lead_received
  publish_lead_received-Rows m = record {
    at = λ w h. (publish-Rows w.publisher.exchange_lead _ _ _ _ _).at w h;
  }

  pub publish_dlq-Rows : (m : DlqMessage) (q : String) → Keeps Rows (publish_dlq m q)
  unfolding publish_dlq
  publish_dlq-Rows m q = record {
    at = λ w h. (publish-Rows w.publisher.exchange_lead _ _ _ _ _).at w h;
  }
