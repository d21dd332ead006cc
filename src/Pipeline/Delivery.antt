-- ===== src/Pipeline/Delivery.antt =====
-- A webhook's way through both parts: from the receiver's handler by the queue to the worker's.
use gex_test_jonatha.Prelude.{suc, ◌≡◌, refl, ◌∙◌, ap, String, true, false, [], ◌∷◌, ◌++◌, some}
use mathlib.Core.List.{append-nil}
use gex_test_jonatha.Exec.{Result, ok, Exec}
use gex_test_jonatha.Json.{Json}
use gex_test_jonatha.Common.Config.{AppSettings, status_accepted, queue_lead_received}
use gex_test_jonatha.Common.Models.{WebhookPayload, LeadReceivedMessage}
use gex_test_jonatha.Common.Library.{Library}
use gex_test_jonatha.World.{World, lead}
use gex_test_jonatha.Receiver.Routes.{Request, plain_result, lead_message, handle_webhook}
use gex_test_jonatha.Receiver.Routes.Outcome.{calm, on_lead}
use gex_test_jonatha.Receiver.Routes.LostLead.{IsFreshLead, IsFreshLead-is_duplicate}
use gex_test_jonatha.Receiver.Routes.Refinement.{handle_webhook-Implements}
use gex_test_jonatha.Worker.Procedure.Laws.{sp_insert_lead_again}
use gex_test_jonatha.Worker.Consumer.{handle_lead}
use gex_test_jonatha.Worker.Consumer.Laws.{
  quiet, persisted, due, outcome_at, parameters_at, handle_lead-quiet,
}
use gex_test_jonatha.Worker.Retry.{sleep, after_try, retry_loop, consume_with_retry}
use gex_test_jonatha.Worker.Dlq.{RabbitMessage, after_processed}
use gex_test_jonatha.Pipeline.{exception_of, consume}

module _ (l : Library) (s : AppSettings) where
  -- The middlewares add nothing to a handler that returns.
  pub consume-ok :
      (raw : RabbitMessage) (context : Result String) (handler : Exec World (Unit {0}))
      (w v : World)
      → handler w ≡ (ok tt, v)
      → consume l s raw context handler w ≡ v
  unfolding consume consume_with_retry after_processed
  consume-ok raw context handler w v e =
      let first : consume_with_retry handler w ≡ (ok tt, v) =
        ap (after_try (λ v'. retry_loop sleep (4000 ∷ 16000 ∷ []) handler (sleep 1000 v'))) e in
      ap (λ p. (after_processed l (exception_of p.0) (some raw) true context p.1).1) first

  pub consume-quiet :
      (raw : RabbitMessage) (context : Result String) (msg : LeadReceivedMessage) (cid : String)
      (w : World)
      → consume l s raw context (handle_lead l msg cid) (quiet w)
        ≡ record (quiet (persisted l msg cid w)) { published = w.published ++ due l msg cid w }
  consume-quiet raw context msg cid w =
      consume-ok raw context (handle_lead l msg cid) (quiet w) _ (handle_lead-quiet l msg cid w)

  -- A lead that is delivered twice is distributed once.
  consume_again :
      (raw raw' : RabbitMessage) (context context' : Result String) (msg : LeadReceivedMessage)
      (cid : String) (w : World)
      → let w2 = consume l s raw context (handle_lead l msg cid) (quiet w) in
        (consume l s raw' context' (handle_lead l msg cid) (quiet w2)).published ≡ w2.published
  consume_again raw raw' context context' msg cid w =
      let w2 : World = record (quiet (persisted l msg cid w)) {
        published = w.published ++ due l msg cid w;
      } in
      let known : (outcome_at l msg cid w2).is_new ≡ false =
        (sp_insert_lead_again l (parameters_at l msg cid w) (parameters_at l msg cid w2) w.now
          w2.now w.tables (record { gateway = refl; transaction_id = refl; event = refl })).1 in
      rw (consume-quiet raw context msg cid w, consume-quiet raw' context' msg cid w2, known)
        (append-nil w2.published)

  -- While no call raises, a well-formed webhook that is approved and new is answered `accepted`, and
  -- publishes one lead. When the worker consumes this lead it publishes the four distribution messages
  -- exactly if the procedure finds its event new, and when the lead is delivered once more it
  -- publishes nothing.
  pub accepted_distributed :
      (req : Request) (raw body : Json) (p : WebhookPayload) (w : World)
      (first second : RabbitMessage) (context context' : Result String)
      → IsFreshLead l s req raw body p w
      → let (r, w1) = handle_webhook l s req (calm w) in
        let msg = lead_message l s req p (l.uuid7 (suc (suc w.uuid_count))) in
        let cid = req.correlation_id in
        let w2 = consume l s first context (handle_lead l msg cid) (quiet w1) in
        let w3 = consume l s second context' (handle_lead l msg cid) (quiet w2) in
        (r ≡ ok (plain_result l s req status_accepted))
        × (w1.published ≡ w.published ++ on_lead queue_lead_received (lead msg) cid [] ∷ [])
        × (w2.published ≡ w1.published ++ due l msg cid w1)
        × (w3.published ≡ w2.published)
  accepted_distributed req raw body p w first second context context' h =
      let done = handle_webhook-Implements l s req raw w h.gateway h.parsed in
      let w1 = (handle_webhook l s req (calm w)).1 in
      let msg = lead_message l s req p (l.uuid7 (suc (suc w.uuid_count))) in
      (
        done.response
            ∙ rw (h.examined, IsFreshLead-is_duplicate l s req raw body p w h, h.approved) refl,
        done.sent
            ∙ rw (h.examined, IsFreshLead-is_duplicate l s req raw body p w h, h.approved) refl,
        ap (λ (v : World). v.published) (consume-quiet first context msg req.correlation_id w1),
        consume_again first second context context' msg req.correlation_id w1,
      )
