-- ===== src/Receiver/Routes/Refinement.antt =====
-- The handler of routes.py implements the specification of `Outcome`.
use gex_test_jonatha.Prelude.{
  suc, ◌≡◌, refl, sym, ap, ◌∙◌, String, true, List, [], ◌∷◌, ◌++◌, arith, Bool-cases, inl, inr,
}
use mathlib.Core.List.{append-nil}
use gex_test_jonatha.Exec.{catch, http, Result, ok}
use gex_test_jonatha.Json.{Json, null, dict}
use gex_test_jonatha.Common.Config.{
  AppSettings, is_valid_gateway, status_decrypt_failed, status_schema_failed,
  queue_dlq_decrypt_failed, queue_dlq_schema_failed,
}
use gex_test_jonatha.Common.Models.{WebhookPayload}
use gex_test_jonatha.Common.Library.{Library}
use gex_test_jonatha.World.{World, RawPayload}
use gex_test_jonatha.World.Session.{with_dependency}
use gex_test_jonatha.Receiver.Db.{insert_raw_payload, check_idempotency}
use gex_test_jonatha.Receiver.Db.Laws.{event_row, length-upsert, upsert-rowcount, is_old-known}
use gex_test_jonatha.Receiver.Publisher.{publish_lead_received, publish_dlq}
use gex_test_jonatha.Receiver.Routes.{
  unavailable, fail_and_return, accept, duplicate, route, Request, Response, Verdict,
  decrypt_failed, schema_failed, accepted, broken, is_approved, act, examine, read_body,
  receive_webhook, handle_webhook,
}
use gex_test_jonatha.Receiver.Routes.Outcome.{
  calm, expected, expected_accept, refused, is_known, is_duplicate, statuses, Implements,
}

statuses-append :
    (rs : List RawPayload) (r : RawPayload)
    → statuses (rs ++ r ∷ []) ≡ statuses rs ++ r.processing_status ∷ []
statuses-append [] r = refl
statuses-append (x ∷ rs) r =
    ap (λ (t : List String). x.processing_status ∷ t) (statuses-append rs r)

module _ (l : Library) (s : AppSettings) (req : Request) where
  -- the handler's `try`, inside the session
  abbrev attempt : Json → Verdict → World → Result Response × World
  attempt raw v w = with_dependency (catch (act l s req raw v) (unavailable l s)) (calm w)

  fail_and_return-Implements :
      (a b : Json) (status reason : String) (c : Json) (queue : String) (w : World)
      → Implements (refused req status reason c queue) w (
          with_dependency
            (catch (fail_and_return l s req a b status reason c queue) (unavailable l s))
            (calm w))
  unfolding with_dependency fail_and_return insert_raw_payload publish_dlq
  fail_and_return-Implements a b status reason (dict d) queue w = record {
    response = refl;
    sent = refl;
    recorded = statuses-append w.tables.raw_payloads _;
    events = omega arith;
  }
  fail_and_return-Implements a b status reason c queue w = record {
    response = refl;
    sent = sym (append-nil _);
    recorded = statuses-append w.tables.raw_payloads _;
    events = omega arith;
  }

  accept-Implements :
      (raw body : Json) (p : WebhookPayload) (w : World)
      → Implements
          (expected_accept l s req p
            (is_duplicate l s req w p)
            (is_known l s req w p)
            (l.uuid7 (suc (suc w.uuid_count))))
          w
          (with_dependency (catch (accept l s req raw body p) (unavailable l s)) (calm w))
  unfolding with_dependency accept duplicate route check_idempotency insert_raw_payload
      publish_lead_received
  accept-Implements raw body p w =
      let row = event_row l req.gateway p.transaction_id p.event req.correlation_id w in
      let rows = w.tables.processed_events in
      let count = upsert-rowcount l row rows in
      elim (Bool-cases (is_duplicate l s req w p)) [
        | inl old ↦
            rw (count, old)
              (record {
                response = refl;
                sent = sym (append-nil _);
                recorded = statuses-append w.tables.raw_payloads _;
                events =
                    length-upsert l row rows
                    ∙ rw (is_old-known l _ req.correlation_id rows old) refl;
              })
        | inr new ↦
            rw (count, new)
              (elim (Bool-cases (is_approved p)) [
                | inl approved ↦ rw approved (record {
                  response = refl;
                  sent = refl;
                  recorded = statuses-append w.tables.raw_payloads _;
                  events = length-upsert l row rows;
                })
                | inr other ↦ rw other (record {
                  response = refl;
                  sent = sym (append-nil _);
                  recorded = statuses-append w.tables.raw_payloads _;
                  events = length-upsert l row rows;
                })
              ])
      ]

  attempt-Implements :
      (raw : Json) (v : Verdict) (w : World)
      → Implements
          (expected l s req raw v
            (is_duplicate l s req w)
            (is_known l s req w)
            (l.uuid7 (suc (suc w.uuid_count))))
          w
          (attempt raw v w)
  unfolding act with_dependency
  attempt-Implements raw (decrypt_failed reason) w =
      fail_and_return-Implements raw null status_decrypt_failed reason raw queue_dlq_decrypt_failed
        w
  attempt-Implements raw (schema_failed body reason) w =
      fail_and_return-Implements raw body status_schema_failed reason body queue_dlq_schema_failed w
  attempt-Implements raw (accepted body p) w = accept-Implements raw body p w
  attempt-Implements raw (broken (http c m)) w = record {
    response = refl;
    sent = sym (append-nil _);
    recorded = sym (append-nil _);
    events = omega arith;
  }
  attempt-Implements raw (broken e) w = record {
    response = refl;
    sent = sym (append-nil _);
    recorded = sym (append-nil _);
    events = omega arith;
  }

  -- While no call raises, a webhook of a known gateway with a JSON body is answered, published and
  -- recorded as the specification says for the outcome of its decryption and validation, for whether
  -- its key has a committed row, and for whether that row has another correlation id or MySQL does not
  -- count an unchanged row as one.
  pub handle_webhook-Implements :
      (raw : Json) (w : World)
      → is_valid_gateway req.gateway ≡ true
      → read_body l s req.body ≡ ok raw
      → Implements
          (expected l s req raw
            (examine l s req raw)
            (is_duplicate l s req w)
            (is_known l s req w)
            (l.uuid7 (suc (suc w.uuid_count))))
          w
          (handle_webhook l s req (calm w))
  unfolding handle_webhook receive_webhook with_dependency
  handle_webhook-Implements raw w known parsed =
      rw (known, parsed) (attempt-Implements raw (examine l s req raw) w)
