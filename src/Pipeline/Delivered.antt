-- ===== src/Pipeline/Delivered.antt =====
-- A webhook's way to the SMS: the receiver, the consumer of leads and `handle_sms` of main.py.
use gex_test_jonatha.Prelude.{
  ℕ, suc, ◌≡◌, refl, ◌∙◌, ap, String, Bool, true, some, List, [], ◌∷◌, ◌++◌, find, count,
  Bool-cases, inl, inr, arith, ◌+◌,
}
use gex_test_jonatha.Exec.{Result, ok}
use gex_test_jonatha.Json.{Json}
use gex_test_jonatha.Common.Config.{
  AppSettings, status_accepted, channel_sms, queue_dist_sms, dist_status_delivered,
}
use gex_test_jonatha.Common.Models.{WebhookPayload, DistributionMessage, LeadReceivedMessage}
use gex_test_jonatha.Common.Library.{Library}
use gex_test_jonatha.World.{World, DistributionStatus, Published, success, distribution}
use gex_test_jonatha.Receiver.Routes.{Request, plain_result, lead_message, handle_webhook}
use gex_test_jonatha.Receiver.Routes.Outcome.{calm}
use gex_test_jonatha.Receiver.Routes.LostLead.{IsFreshLead}
use gex_test_jonatha.Worker.Procedure.{is_status_of}
use gex_test_jonatha.Worker.Procedure.Unique.{IsUnique}
use gex_test_jonatha.Worker.Procedure.Channels.{sp_insert_lead_channels}
use gex_test_jonatha.Worker.Consumer.{handle_lead, broker_message, distribution_message}
use gex_test_jonatha.Worker.Consumer.Laws.{quiet, outcome_at, parameters_at, after_procedure}
use gex_test_jonatha.Worker.Sms.{is_row_of, set_delivered, handle_sms}
use gex_test_jonatha.Worker.Sms.Laws.{find-update_rows}
use gex_test_jonatha.Worker.Sms.Handle.{attempting, handle_sms_delivered}
use gex_test_jonatha.Worker.Sms.Life.{row_of, same_row}
use gex_test_jonatha.Worker.Dlq.{RabbitMessage}
use gex_test_jonatha.Pipeline.{consume}
use gex_test_jonatha.Pipeline.Delivery.{accepted_distributed, consume-ok, consume-quiet}

find_of_count {ℓ} :
    {A : Type ℓ} (p : A → Bool) (xs : List A) → count p xs ≡ 1 → (x : A) × (find p xs ≡ some x)
find_of_count p [] h = absurd (omega (arith, h))
find_of_count p (x ∷ xs) h = elim (Bool-cases (p x)) [
  | inl own ↦ (x, rw own refl)
  | inr other ↦ let (y, found) = find_of_count p xs (rw other at h) in (y, rw other found)
]

module _ (l : Library) (s : AppSettings) where
  -- the SMS of a lead
  abbrev pub sms_of : LeadReceivedMessage → String → World → DistributionMessage
  sms_of msg cid w = distribution_message msg (outcome_at l msg cid w).order_id cid channel_sms

  -- A row that an SMS finds is marked delivered.
  consume_delivered :
      (raw : RabbitMessage) (context : Result String) (msg : DistributionMessage) (cid : String)
      (lag : ℕ) (w : World) (row : DistributionStatus)
      → row_of l s msg cid w ≡ some row
      → let w' = consume l s raw context (handle_sms l s msg cid) (attempting (success lag) w) in
        (row_of l s msg cid w' ≡ some (set_delivered lag (w.now + lag) row))
        × (w'.published ≡ w.published)
  consume_delivered raw context msg cid lag w row found =
      let done =
        consume-ok l s raw context (handle_sms l s msg cid) _ _
          (handle_sms_delivered l s msg cid lag w) in
      (
        ap (row_of l s msg cid) done
            ∙ find-update_rows l msg.order_id (set_delivered lag (w.now + lag))
                w.tables.distribution_status (λ r. same_row l s msg cid msg.order_id r _ refl refl)
                row found,
        ap (λ (v : World). v.published) done,
      )

  -- A lead that the procedure finds new has exactly one row for its SMS when it has been consumed.
  new_row :
      (raw : RabbitMessage) (context : Result String) (msg : LeadReceivedMessage) (cid : String)
      (w : World)
      → IsUnique l w.tables
      → (outcome_at l msg cid w).is_new ≡ true
      → let w' = consume l s raw context (handle_lead l msg cid) (quiet w) in
        (row : DistributionStatus) × (row_of l s (sms_of msg cid w) cid w' ≡ some row)
  unfolding is_row_of
  new_row raw context msg cid w unique new =
      let one = sp_insert_lead_channels l (parameters_at l msg cid w) w.now w.tables unique new in
      let (row, found) =
        find_of_count (is_status_of l (outcome_at l msg cid w).order_id channel_sms)
          (after_procedure l msg cid w).distribution_status one.0 in
      (
        row,
        ap (row_of l s (sms_of msg cid w) cid) (consume-quiet l s raw context msg cid w) ∙ found,
      )

  -- While no call raises, a fresh and approved webhook whose event is new to the procedure is
  -- answered `accepted`; when the worker consumes its lead, the first message that it publishes is
  -- the SMS; and when the worker consumes that and the provider answers, the row of the SMS is
  -- delivered at that moment, and nothing more is published, if the unique indexes held before the
  -- lead.
  pub accepted_delivered :
      (req : Request) (raw body : Json) (p : WebhookPayload) (w : World)
      (first second : RabbitMessage) (context context' : Result String) (lag : ℕ)
      → IsFreshLead l s req raw body p w
      → let (r, w1) = handle_webhook l s req (calm w) in
        let msg = lead_message l s req p (l.uuid7 (suc (suc w.uuid_count))) in
        let cid = req.correlation_id in
        IsUnique l w1.tables
        → (outcome_at l msg cid w1).is_new ≡ true
        → let w2 = consume l s first context (handle_lead l msg cid) (quiet w1) in
          let sms = sms_of msg cid w1 in
          let w3 =
            consume l s second context' (handle_sms l s sms cid) (attempting (success lag) w2) in
          (r ≡ ok (plain_result l s req status_accepted))
          × ((rest : List Published) × (w2.published
                ≡ w1.published ++ broker_message "dist" queue_dist_sms (distribution sms) ∷ rest))
          × ((row : DistributionStatus) × (row_of l s sms cid w3 ≡ some row)
              × (row.status ≡ dist_status_delivered)
              × (row.delivered_at ≡ some (w2.now + lag)))
          × (w3.published ≡ w2.published)
  accepted_delivered req raw body p w first second context context' lag h unique new =
      let cid = req.correlation_id in
      let msg = lead_message l s req p (l.uuid7 (suc (suc w.uuid_count))) in
      let w1 = (handle_webhook l s req (calm w)).1 in
      let w2 = consume l s first context (handle_lead l msg cid) (quiet w1) in
      let (answer, _, sent, _) =
        accepted_distributed l s req raw body p w first first context context h in
      let (row, found) = new_row first context msg cid w1 unique new in
      let (after, same) =
        consume_delivered second context' (sms_of msg cid w1) cid lag w2 row found in
      (answer, (_, rw new at sent), (set_delivered lag (w2.now + lag) row, after, refl, refl), same)
