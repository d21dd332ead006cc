-- ===== src/Receiver/Routes/LostLead.antt =====
-- The 503 of routes.py and the commit of dependencies.py: what a webhook leaves behind when
-- RabbitMQ refuses its lead.
use mathlib.Core.List.{append-nil}
use gex_test_jonatha.Prelude.{
  ◌≡◌, refl, ◌∙◌, String, true, false, none, some, List, [], ◌∷◌, ◌++◌, any, find, Option,
  Bool-cases, inl, inr, ◌==◌, eq_refl,
}
use gex_test_jonatha.Exec.{ok}
use gex_test_jonatha.Json.{Json}
use gex_test_jonatha.Common.Config.{AppSettings, is_valid_gateway, status_duplicate}
use gex_test_jonatha.Common.Models.{WebhookPayload}
use gex_test_jonatha.Common.Library.{Library}
use gex_test_jonatha.World.{World, ProcessedEvent}
use gex_test_jonatha.World.Session.{with_dependency}
use gex_test_jonatha.Receiver.Db.{has_key, insert_raw_payload, check_idempotency}
use gex_test_jonatha.Receiver.Db.Laws.{event_row, upsert-miss, is_old-miss}
use gex_test_jonatha.Receiver.Publisher.{publish_lead_received}
use gex_test_jonatha.Receiver.Routes.{
  Request, detail, accepted, is_approved, plain_result, examine, read_body, receive_webhook,
  handle_webhook, accept, route, act, is_encrypted,
}
use gex_test_jonatha.Receiver.Routes.Outcome.{calm, is_known, is_duplicate}
use gex_test_jonatha.Receiver.Routes.Refinement.{handle_webhook-Implements}

-- The two statements of an approved webhook succeed, and its publish raises.
abbrev pub refusing : String → String → World → World
refusing c m w = record (calm w) { faults = none ∷ none ∷ some (c, m) ∷ [] }

module _ (l : Library) (s : AppSettings) (req : Request) (raw body : Json)
    (p : WebhookPayload) where
  -- the webhook is well formed, approved and new
  pub record IsFreshLead (w : World) : Type 0 where
    pub gateway : is_valid_gateway req.gateway ≡ true
    pub parsed : read_body l s req.body ≡ ok raw
    pub examined : examine l s req raw ≡ accepted body p
    pub approved : is_approved p ≡ true
    pub fresh : is_known l s req w p ≡ false

  pub has_key_self :
      (w : World)
      → has_key l req.gateway p.transaction_id p.event
          (event_row l req.gateway p.transaction_id p.event req.correlation_id w)
        ≡ true
  unfolding has_key
  has_key_self w = rw (
    eq_refl (l.collate req.gateway),
    eq_refl (l.collate p.transaction_id),
    eq_refl (l.collate p.event),
  )

  pub find_last :
      (rs : List ProcessedEvent) (r : ProcessedEvent)
      → any (has_key l req.gateway p.transaction_id p.event) rs ≡ false
      → has_key l req.gateway p.transaction_id p.event r ≡ true
      → find (has_key l req.gateway p.transaction_id p.event) (rs ++ r ∷ []) ≡ some r
  find_last [] r h k = rw k refl
  find_last (x ∷ rs) r h k = elim (Bool-cases (has_key l req.gateway p.transaction_id p.event x)) [
    | inl here ↦ let c : true ≡ false = rw here at h in cc
    | inr there ↦ rw there (find_last rs r (rw there at h) k)
  ]

  -- The check of a new webhook does not find it old.
  pub IsFreshLead-is_duplicate : (w : World) → IsFreshLead w → is_duplicate l s req w p ≡ false
  IsFreshLead-is_duplicate w h =
      is_old-miss l _ req.correlation_id w.tables.processed_events h.fresh

  -- the row of the webhook's key
  abbrev pub row_of : World → Option ProcessedEvent
  row_of w = find (has_key l req.gateway p.transaction_id p.event) w.tables.processed_events

  first_try :
      (w : World) (c m : String)
      → IsFreshLead w
      → ((handle_webhook l s req (refusing c m w)).0
          ≡ ok (detail 503 "Service temporarily unavailable"))
        × ((handle_webhook l s req (refusing c m w)).1.published ≡ w.published)
        × (row_of (handle_webhook l s req (refusing c m w)).1
            ≡ some (event_row l req.gateway p.transaction_id p.event req.correlation_id w))
  unfolding handle_webhook receive_webhook with_dependency act accept route check_idempotency
      insert_raw_payload publish_lead_received
  first_try w c m h =
      let row = event_row l req.gateway p.transaction_id p.event req.correlation_id w in
      let rows = w.tables.processed_events in
      rw (h.gateway, h.parsed, h.examined, upsert-miss l row rows h.fresh, h.approved)
        (refl, refl, find_last rows row h.fresh (has_key_self w))

  -- The publish of a fresh, approved webhook raises: the sender is told 503, to send it again. It
  -- does, under another correlation id, all calls work, and the answer is `duplicate`: neither try
  -- has published the lead.
  pub lost_lead :
      (w : World) (c m cid : String)
      → req.correlation_id == cid ≡ false
      → IsFreshLead w
      → let again = record req { correlation_id = cid } in
        let (r, w') = handle_webhook l s req (refusing c m w) in
        let (r'', w'') = handle_webhook l s again (calm w') in
        (r ≡ ok (detail 503 "Service temporarily unavailable"))
        × (r'' ≡ ok (plain_result l s again status_duplicate))
        × (w''.published ≡ w.published)
  unfolding examine is_encrypted
  lost_lead w c m cid other h =
      let again : Request = record req { correlation_id = cid } in
      let (refused, unsent, found) = first_try w c m h in
      let w' = (handle_webhook l s req (refusing c m w)).1 in
      let old : is_duplicate l s again w' p ≡ true = rw (found, other) refl in
      let examined : examine l s again raw ≡ accepted body p = h.examined in
      let done = handle_webhook-Implements l s again raw w' h.gateway h.parsed in
      (
        refused,
        done.response ∙ rw (examined, old) refl,
        done.sent ∙ rw (examined, old) (append-nil _ ∙ unsent),
      )
