-- ===== src/Worker/Procedure/References.antt =====
-- The foreign keys of sql/001_create_tables.sql over a call of `sp_insert_lead`.
use gex_test_jonatha.Prelude.{
  ◌≡◌, refl, String, Bool, true, List, [], ◌∷◌, any, All, All-map, All-append, eq_refl, Bool-cases,
  inl, inr,
}
use gex_test_jonatha.Prelude.Upsert.{any-put, find-put, any-find, All-put, All-insert}
use gex_test_jonatha.Common.Models.{Time}
use gex_test_jonatha.Common.Config.{
  channel_sms, channel_email, channel_call_center, channel_whatsapp,
}
use gex_test_jonatha.Common.Library.{Library}
use gex_test_jonatha.World.{Tables, Lead, Order, LeadEvent, DistributionStatus, same_text}
use gex_test_jonatha.Worker.Procedure.{
  Parameters, is_lead_of, is_order_of, is_event_of, is_status_of, new_lead, refresh_lead,
  upsert_lead, new_order, refresh_order, upsert_order, resolve_lead, resolve_order, new_event,
  status_row, insert_status, insert_statuses, insert_event, sp_insert_lead,
}
use gex_test_jonatha.Worker.Procedure.Unique.{
  upsert_lead-put, upsert_order-put, same_leads, same_orders,
}

module _ (l : Library) where
  abbrev pub is_lead_id : String → Lead → Bool
  is_lead_id id r = same_text l r.id id

  abbrev pub is_order_id : String → Order → Bool
  is_order_id id r = same_text l r.id id

  -- a row with the id is there
  abbrev pub HasLead : List Lead → String → Type 0
  HasLead rs id = any (is_lead_id id) rs ≡ true

  abbrev pub HasOrder : List Order → String → Type 0
  HasOrder rs id = any (is_order_id id) rs ≡ true

  -- Each foreign key of the tables names a row that is there.
  pub record IsReferential (t : Tables) : Type 0 where
    pub orders : All (λ o. HasLead t.leads o.lead_id) t.orders
    pub events : All (λ e. HasOrder t.orders e.order_id) t.lead_events
    pub statuses : All (λ s. HasOrder t.orders s.order_id) t.distribution_status

  module _ (p : Parameters) (now : Time) where
    HasLead-upsert_lead :
        (rs : List Lead) (id : String) → HasLead rs id → HasLead (upsert_lead l p now rs) id
    HasLead-upsert_lead rs id h = rw (upsert_lead-put l p now rs) (
        any-put (is_lead_id id) (is_lead_of l p.email) (refresh_lead l p now) (new_lead l p now) rs
          (λ r. refl) h)

    HasLead-resolve_lead :
        (d : String) (rs : List Lead)
        → HasLead (upsert_lead l p now rs) (resolve_lead l p.email d (upsert_lead l p now rs))
    unfolding resolve_lead is_lead_of
    HasLead-resolve_lead d rs =
        let (r, e) =
          find-put (is_lead_of l p.email) (refresh_lead l p now) (new_lead l p now) rs (λ r. refl)
            (eq_refl (l.collate p.email)) in
        rw (upsert_lead-put l p now rs, e, resolve_lead)
          (any-find (is_lead_id r.id) (is_lead_of l p.email) _ r e (eq_refl (l.collate r.id)))

    HasOrder-upsert_order :
        (lead_id : String) (rs : List Order) (id : String)
        → HasOrder rs id
        → HasOrder (upsert_order l p now lead_id rs) id
    HasOrder-upsert_order lead_id rs id h = rw (upsert_order-put l p now lead_id rs) (
        any-put (is_order_id id) (is_order_of l p.gateway p.transaction_id) (refresh_order l p now)
          (new_order l p now lead_id) rs (λ r. refl) h)

    HasOrder-resolve_order :
        (lead_id d : String) (rs : List Order)
        → HasOrder
            (upsert_order l p now lead_id rs)
            (resolve_order l p.gateway p.transaction_id d (upsert_order l p now lead_id rs))
    unfolding resolve_order is_order_of
    HasOrder-resolve_order lead_id d rs =
        let (r, e) =
          find-put (is_order_of l p.gateway p.transaction_id) (refresh_order l p now)
            (new_order l p now lead_id) rs (λ r. refl)
            (rw (eq_refl (l.collate p.gateway), eq_refl (l.collate p.transaction_id))) in
        rw (upsert_order-put l p now lead_id rs, e, resolve_order)
          (any-find (is_order_id r.id) (is_order_of l p.gateway p.transaction_id) _ r e
            (eq_refl (l.collate r.id)))

    All-upsert_order :
        (P : Order → Type 0) (lead_id : String) (rs : List Order)
        → ((r : Order) → P r → P (refresh_order l p now r))
        → P (new_order l p now lead_id)
        → All P rs
        → All P (upsert_order l p now lead_id rs)
    All-upsert_order P lead_id rs k n h = rw (upsert_order-put l p now lead_id rs) (
        All-put P (is_order_of l p.gateway p.transaction_id) (refresh_order l p now)
          (new_order l p now lead_id) rs k n h)

    All-insert_event :
        (P : LeadEvent → Type 0) (order_id : String) (t : Tables)
        → P (new_event l p now order_id)
        → All P t.lead_events
        → All P (insert_event l p now order_id t).lead_events
    unfolding insert_event
    All-insert_event P order_id t n h =
        elim (Bool-cases (any (is_event_of l order_id p.event) t.lead_events)) [
          | inl known ↦ rw known h
          | inr fresh ↦ rw fresh (All-append P t.lead_events (_ ∷ []) h (n, tt))
        ]

    All-insert_status :
        (P : DistributionStatus → Type 0) (id order_id channel : String)
        (rs : List DistributionStatus)
        → P (status_row id order_id channel p.correlation_id now)
        → All P rs
        → All P (insert_status l p now id order_id channel rs)
    unfolding insert_status
    All-insert_status P id order_id channel rs n h =
        All-insert P (any (is_status_of l order_id channel) rs)
          (status_row id order_id channel p.correlation_id now) rs n h

    All-insert_statuses :
        (P : DistributionStatus → Type 0) (order_id : String) (rs : List DistributionStatus)
        → ((id channel : String) → P (status_row id order_id channel p.correlation_id now))
        → All P rs
        → All P (insert_statuses l p now order_id rs)
    unfolding insert_statuses
    All-insert_statuses P order_id rs n h =
        let insert = λ (id channel : String) (xs : List DistributionStatus).
          All-insert_status P id order_id channel xs (n id channel) in
        let sms = insert_status l p now p.dist_sms_id order_id channel_sms rs in
        let email = insert_status l p now p.dist_email_id order_id channel_email sms in
        let call_center =
          insert_status l p now p.dist_callcenter_id order_id channel_call_center email in
        insert p.dist_whatsapp_id channel_whatsapp call_center (
          insert p.dist_callcenter_id channel_call_center email
            (insert p.dist_email_id channel_email sms (insert p.dist_sms_id channel_sms rs h)))

    All-statuses :
        (P : DistributionStatus → Type 0) (order_id : String) (t : Tables)
        → ((id channel : String) → P (status_row id order_id channel p.correlation_id now))
        → All P t.distribution_status
        → All P (insert_event l p now order_id t).distribution_status
    unfolding insert_event
    All-statuses P order_id t n h =
        elim (Bool-cases (any (is_event_of l order_id p.event) t.lead_events)) [
          | inl known ↦ rw known h
          | inr fresh ↦ rw fresh (All-insert_statuses P order_id t.distribution_status n h)
        ]

    -- A call of the procedure keeps the foreign keys: the lead of each order, and the order of each
    -- event and of each distribution row, is there.
    pub sp_insert_lead-IsReferential :
        (t : Tables) → IsReferential t → IsReferential (sp_insert_lead l p now t).0
    unfolding sp_insert_lead
    sp_insert_lead-IsReferential t h =
        let leads = upsert_lead l p now t.leads in
        let lead_id = resolve_lead l p.email p.lead_id leads in
        let orders = upsert_order l p now lead_id t.orders in
        let order_id = resolve_order l p.gateway p.transaction_id p.order_id orders in
        let t' = record t { leads = leads; orders = orders } in
        let own = HasOrder-resolve_order lead_id p.order_id t.orders in
        let final = insert_event l p now order_id t' in
        let orders_eq : final.orders ≡ orders = same_orders l p now order_id t' in
        let leads_eq : final.leads ≡ leads = same_leads l p now order_id t' in
        let kept =
          λ (id : String) (k : HasOrder t.orders id). HasOrder-upsert_order lead_id t.orders id k in
        record {
          orders =
              rw (leads_eq, orders_eq)
                (All-upsert_order (λ o. HasLead leads o.lead_id) lead_id t.orders (λ r k. k)
                  (HasLead-resolve_lead p.lead_id t.leads)
                  (All-map (λ o. HasLead t.leads o.lead_id) (λ o. HasLead leads o.lead_id)
                    (λ o k. HasLead-upsert_lead t.leads o.lead_id k) t.orders h.orders));
          events = rw orders_eq (
              All-insert_event (λ e. HasOrder orders e.order_id) order_id t' own
                (All-map (λ e. HasOrder t.orders e.order_id) (λ e. HasOrder orders e.order_id)
                  (λ e k. kept e.order_id k) t.lead_events h.events));
          statuses = rw orders_eq (
              All-statuses (λ s. HasOrder orders s.order_id) order_id t' (λ _ _. own)
                (All-map (λ s. HasOrder t.orders s.order_id) (λ s. HasOrder orders s.order_id)
                  (λ s k. kept s.order_id k) t.distribution_status h.statuses));
        }

    -- What holds of the distribution rows before a call, and of each that it inserts, holds after it.
    pub sp_insert_lead_statuses :
        (P : DistributionStatus → Type 0) (t : Tables)
        → ((id order_id channel : String) → P (status_row id order_id channel p.correlation_id now))
        → All P t.distribution_status
        → All P (sp_insert_lead l p now t).0.distribution_status
    unfolding sp_insert_lead
    sp_insert_lead_statuses P t n h = All-statuses P _ _ (λ id channel. n id _ channel) h
