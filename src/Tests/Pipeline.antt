-- ===== src/Tests/Pipeline.antt =====
-- The theorems on whole runs, applied.
use gex_test_jonatha.Prelude.{none, some, [], ◌∷◌, arith, ◌≤◌, refl, sym, subst, ap, ◌∙◌, inl}
use gex_test_jonatha.Common.Models.{LeadReceivedMessage}
use gex_test_jonatha.Pipeline.{Step}
use gex_test_jonatha.Pipeline.Once.{firsts}
use gex_test_jonatha.Pipeline.Fed.{HasLead, IsFed, distributed_once}
use gex_test_jonatha.Exec.{ok}
use gex_test_jonatha.Common.Config.{default_settings}
use gex_test_jonatha.World.{World, empty_tables}
use gex_test_jonatha.Receiver.Routes.{handle_webhook}
use gex_test_jonatha.Worker.Procedure.References.{IsReferential}
use gex_test_jonatha.Worker.Consumer.{handle_lead}
use gex_test_jonatha.Worker.Dlq.{RabbitMessage}
use gex_test_jonatha.Worker.Sms.{handle_sms}
use gex_test_jonatha.Pipeline.{consume, Reach, here, next, webhook, lead, sms, environment}
use gex_test_jonatha.Pipeline.Consistent.{IsConsistent, Reach-IsConsistent}
use gex_test_jonatha.Prelude.{◌≡◌, ◌++◌}
use gex_test_jonatha.Json.{dict}
use gex_test_jonatha.World.{lead as lead_body}
use gex_test_jonatha.Common.Config.{status_accepted, queue_lead_received}
use gex_test_jonatha.Receiver.Routes.{lead_message, plain_result}
use gex_test_jonatha.Receiver.Routes.Outcome.{calm, on_lead}
use gex_test_jonatha.Worker.Consumer.Laws.{quiet, due}
use gex_test_jonatha.Pipeline.Delivery.{accepted_distributed}
use gex_test_jonatha.Prelude.{List, ◌+◌}
use gex_test_jonatha.World.{Published, DistributionStatus, success, distribution}
use gex_test_jonatha.Common.Config.{queue_dist_sms, dist_status_delivered}
use gex_test_jonatha.Worker.Procedure.Unique.{IsUnique}
use gex_test_jonatha.Worker.Consumer.{broker_message}
use gex_test_jonatha.Worker.Sms.Handle.{attempting}
use gex_test_jonatha.Worker.Sms.Life.{row_of}
use gex_test_jonatha.Pipeline.Delivered.{sms_of, accepted_delivered}
use gex_test_jonatha.Worker.Procedure.{sp_insert_lead}
use gex_test_jonatha.Common.Validation.{
  validate_schema, is_blank_email, is_bad_country, is_blank_method,
}
use gex_test_jonatha.Common.Strip.{is_blank}
use gex_test_jonatha.Receiver.Db.{check_idempotency, upsert, insert_raw_payload}
use gex_test_jonatha.Receiver.Publisher.{publish_lead_received}
use gex_test_jonatha.Tests.Receiver.{world-IsFreshLead}
use gex_test_jonatha.Tests.Data.{
  library, payload, lead_fields, world, request, lead_received, sms_message,
}
use gex_test_jonatha.Tests.Worker.{empty-IsUnique}

empty-IsReferential : IsReferential library empty_tables
empty-IsReferential = record { orders = tt; events = tt; statuses = tt }

empty-IsConsistent : IsConsistent library empty_tables
empty-IsConsistent = record {
  keys = λ g n e. omega arith;
  unique = empty-IsUnique;
  referential = empty-IsReferential;
  dispatched = tt;
  outcomes = tt;
}

abbrev raw_lead : RabbitMessage
raw_lead = record { routing_key = some "lead.received"; body = 1 ∷ [] }

abbrev raw_sms : RabbitMessage
raw_sms = record { routing_key = some "dist.sms"; body = 1 ∷ [] }

abbrev accepted : World
accepted = (handle_webhook library default_settings request world).1

-- the second publish and the commit will fail
abbrev faulty : World
faulty = record accepted {
  faults = none ∷ none ∷ some ("AMQPError", "closed") ∷ [];
  commit_faults = some ("OperationalError", "gone") ∷ [];
  sms_attempts = [];
  now = 200;
}

abbrev persisted : World
persisted =
    consume library default_settings raw_lead (ok "c1") (handle_lead library lead_received "c1")
      faulty

abbrev notified : World
notified =
    consume library default_settings raw_sms (ok "c1")
      (handle_sms library default_settings sms_message "c1") persisted

small_run : Reach library default_settings world notified
small_run =
    next
      (next
        (next (next here (webhook request world))
          (environment faulty.faults faulty.commit_faults [] 200 accepted.publisher accepted))
        (lead raw_lead (ok "c1") lead_received "c1" faulty))
      (sms raw_sms (ok "c1") sms_message "c1" persisted)

Reach-IsConsistent_example : IsConsistent library notified.tables
Reach-IsConsistent_example =
    Reach-IsConsistent library default_settings world notified empty-IsConsistent empty-IsConsistent
      small_run

accepted_distributed_example :
    let (r, w1) = handle_webhook library default_settings request (calm world) in
    let msg = lead_message library default_settings request payload "id-2" in
    let w2 =
      consume library default_settings raw_lead
        (ok "c1")
        (handle_lead library msg "c1")
        (quiet w1) in
    let w3 =
      consume library default_settings raw_lead
        (ok "c1")
        (handle_lead library msg "c1")
        (quiet w2) in
    (r ≡ ok (plain_result library default_settings request status_accepted))
    × (w1.published ≡ on_lead queue_lead_received (lead_body msg) "c1" [] ∷ [])
    × (w2.published ≡ w1.published ++ due library msg "c1" w1)
    × (w3.published ≡ w2.published)
accepted_distributed_example =
    accepted_distributed library default_settings request (dict lead_fields) (dict lead_fields)
      payload world raw_lead raw_lead (ok "c1") (ok "c1") world-IsFreshLead

-- the lead of the webhook, as the worker reads it
abbrev own_lead : LeadReceivedMessage
own_lead = lead_message library default_settings request payload "id-2"

abbrev sent : World
sent = (handle_webhook library default_settings request (calm world)).1

abbrev once : World
once =
    consume library default_settings raw_lead (ok "c1") (handle_lead library own_lead "c1")
      (quiet sent)

abbrev twice : World
twice =
    consume library default_settings raw_lead (ok "c1") (handle_lead library own_lead "c1")
      (quiet once)

calmly : (w : World) → Step library default_settings w (quiet w)
calmly w = environment [] [] w.sms_attempts w.now w.publisher w

redelivered : Reach library default_settings (calm world) twice
redelivered =
    next
      (next
        (next (next (next here (webhook request (calm world))) (calmly sent))
          (lead raw_lead (ok "c1") own_lead "c1" (quiet sent)))
        (calmly once))
      (lead raw_lead (ok "c1") own_lead "c1" (quiet once))

redelivered-IsFed : IsFed redelivered
unfolding redelivered calmly
redelivered-IsFed =
    let (r, published, due_after, same) = accepted_distributed_example in
    (
      ((((tt, tt), tt), subst (HasLead own_lead) (sym published) (inl refl)), tt),
      subst (HasLead own_lead)
          (sym (due_after ∙ ap (λ ps. ps ++ due library own_lead "c1" sent) published)) (inl refl),
    )

distributed_once_example : firsts "id-more" "SMS" twice.published ≤ 1
distributed_once_example =
    distributed_once library default_settings "id-more" "SMS" (calm world) twice redelivered
      redelivered-IsFed refl refl refl empty-IsConsistent empty-IsConsistent

sent-IsUnique : IsUnique library sent.tables
unfolding handle_webhook validate_schema is_blank is_blank_email is_bad_country is_blank_method
    check_idempotency upsert insert_raw_payload publish_lead_received
sent-IsUnique = record {
  leads = λ e. omega arith;
  orders = λ g n. omega arith;
  events = λ o e. omega arith;
  statuses = λ o c. omega arith;
}

accepted_delivered_example :
    let (r, w1) = handle_webhook library default_settings request (calm world) in
    let w2 =
      consume library default_settings raw_lead
        (ok "c1")
        (handle_lead library own_lead "c1")
        (quiet w1) in
    let message = sms_of library default_settings own_lead "c1" w1 in
    let w3 =
      consume library default_settings raw_sms
        (ok "c1")
        (handle_sms library default_settings message "c1")
        (attempting (success 7) w2) in
    (r ≡ ok (plain_result library default_settings request status_accepted))
    × ((rest : List Published) × (w2.published
          ≡ w1.published ++ broker_message "dist" queue_dist_sms (distribution message) ∷ rest))
    × ((row : DistributionStatus) × (row_of library default_settings message "c1" w3 ≡ some row)
        × (row.status ≡ dist_status_delivered)
        × (row.delivered_at ≡ some (w2.now + 7)))
    × (w3.published ≡ w2.published)
unfolding sp_insert_lead handle_webhook validate_schema is_blank is_blank_email is_bad_country
    is_blank_method check_idempotency upsert insert_raw_payload publish_lead_received
accepted_delivered_example =
    accepted_delivered library default_settings request (dict lead_fields) (dict lead_fields)
      payload world raw_lead raw_sms (ok "c1") (ok "c1") 7 world-IsFreshLead sent-IsUnique refl
