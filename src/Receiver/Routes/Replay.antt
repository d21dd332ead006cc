-- ===== src/Receiver/Routes/Replay.antt =====
-- A webhook that the sender repeats with the correlation id of its first try: the row count that db.py
-- compares with 1.
use gex_test_jonatha.Prelude.{suc, ◌≡◌, refl, ◌∙◌, ap, some, false, [], ◌∷◌, ◌++◌, eq_refl}
use mathlib.Core.List.{append_assoc}
use gex_test_jonatha.Exec.{ok}
use gex_test_jonatha.Json.{Json}
use gex_test_jonatha.Common.Config.{AppSettings, status_accepted, queue_lead_received}
use gex_test_jonatha.Common.Models.{WebhookPayload}
use gex_test_jonatha.Common.Library.{Library}
use gex_test_jonatha.World.{World, Published, lead}
use gex_test_jonatha.World.Session.{with_dependency}
use gex_test_jonatha.Receiver.Db.{insert_raw_payload, check_idempotency}
use gex_test_jonatha.Receiver.Db.Laws.{event_row, upsert-miss}
use gex_test_jonatha.Receiver.Publisher.{publish_lead_received}
use gex_test_jonatha.Receiver.Routes.{
  Request, plain_result, lead_message, receive_webhook, handle_webhook, accept, route, act,
}
use gex_test_jonatha.Receiver.Routes.Outcome.{calm, is_duplicate, on_lead}
use gex_test_jonatha.Receiver.Routes.Refinement.{handle_webhook-Implements}
use gex_test_jonatha.Receiver.Routes.LostLead.{
  IsFreshLead, IsFreshLead-is_duplicate, row_of, find_last, has_key_self,
}

module _ (l : Library) (s : AppSettings) (req : Request) (raw body : Json)
    (p : WebhookPayload) where
  -- the lead of the webhook, with the id that is drawn in this world
  abbrev pub lead_at : World → Published
  lead_at w =
      on_lead queue_lead_received (lead (lead_message l s req p (l.uuid7 (suc (suc w.uuid_count)))))
        req.correlation_id []

  first_row :
      (w : World)
      → IsFreshLead l s req raw body p w
      → row_of l s req raw body p (handle_webhook l s req (calm w)).1
        ≡ some (event_row l req.gateway p.transaction_id p.event req.correlation_id w)
  unfolding handle_webhook receive_webhook with_dependency act accept route check_idempotency
      insert_raw_payload publish_lead_received
  first_row w h =
      let row = event_row l req.gateway p.transaction_id p.event req.correlation_id w in
      let rows = w.tables.processed_events in
      rw (h.gateway, h.parsed, h.examined, upsert-miss l row rows h.fresh, h.approved)
        (find_last l s req raw body p rows row h.fresh (has_key_self l s req raw body p w))

  -- Where MySQL counts an upsert that changes nothing as one row, a fresh and approved webhook that is
  -- sent twice with one correlation id is answered `accepted` both times, and both times a lead of it
  -- is published, while no call raises.
  pub published_twice :
      (w : World)
      → l.unchanged_rowcount ≡ 1
      → IsFreshLead l s req raw body p w
      → let (r, w') = handle_webhook l s req (calm w) in
        let (r'', w'') = handle_webhook l s req (calm w') in
        (r ≡ ok (plain_result l s req status_accepted))
        × (r'' ≡ ok (plain_result l s req status_accepted))
        × (w''.published ≡ w.published ++ lead_at w ∷ lead_at w' ∷ [])
  published_twice w u h =
      let w' = (handle_webhook l s req (calm w)).1 in
      let first = handle_webhook-Implements l s req raw w h.gateway h.parsed in
      let second = handle_webhook-Implements l s req raw w' h.gateway h.parsed in
      let fresh = IsFreshLead-is_duplicate l s req raw body p w h in
      let again : is_duplicate l s req w' p ≡ false =
        rw (first_row w h, eq_refl req.correlation_id, u) refl in
      (
        first.response ∙ rw (h.examined, fresh, h.approved) refl,
        second.response ∙ rw (h.examined, again, h.approved) refl,
        second.sent
            ∙ rw (h.examined, again, h.approved)
                (ap (λ ps. ps ++ lead_at w' ∷ [])
                    (first.sent ∙ rw (h.examined, fresh, h.approved) refl)
                  ∙ append_assoc w.published (lead_at w ∷ []) (lead_at w' ∷ [])),
      )
