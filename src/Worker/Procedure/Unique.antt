-- ===== src/Worker/Procedure/Unique.antt =====
-- The unique indexes of sql/001_create_tables.sql over a call of `sp_insert_lead`.
use gex_test_jonatha.Prelude.{
  ◌≤◌, ◌≡◌, refl, String, true, List, [], ◌∷◌, ◌&&◌, any, count, arith, eq_iff, Bool-cases, inl,
  inr, ◌==◌,
}
use gex_test_jonatha.Prelude.Upsert.{put, count-put, count-insert}
use gex_test_jonatha.Common.Config.{
  channel_sms, channel_email, channel_call_center, channel_whatsapp,
}
use gex_test_jonatha.Common.Models.{Time}
use gex_test_jonatha.Common.Library.{Library}
use gex_test_jonatha.World.{Tables, Lead, Order, DistributionStatus}
use gex_test_jonatha.Worker.Procedure.{
  Parameters, is_lead_of, is_order_of, is_event_of, is_status_of, new_lead, refresh_lead,
  upsert_lead, new_order, refresh_order, upsert_order, new_event, status_row, insert_status,
  insert_statuses, insert_event, sp_insert_lead,
}

module _ (l : Library) where
  -- Each of the four unique indexes holds.
  pub record IsUnique (t : Tables) : Type 0 where
    pub leads : (email : String) → count (is_lead_of l email) t.leads ≤ 1
    pub orders : (g n : String) → count (is_order_of l g n) t.orders ≤ 1
    pub events : (o e : String) → count (is_event_of l o e) t.lead_events ≤ 1
    pub statuses : (o c : String) → count (is_status_of l o c) t.distribution_status ≤ 1

  same_left :
      (a b c : String)
      → (l.collate a == l.collate b) ≡ true
      → (l.collate c == l.collate a) ≡ (l.collate c == l.collate b)
  same_left a b c h =
      let e : l.collate a ≡ l.collate b = ground (arith, eq_iff (l.collate a) (l.collate b)) in rw e

  same_pair :
      (a b a' b' c d : String)
      → ((l.collate a == l.collate b) && (l.collate a' == l.collate b')) ≡ true
      → ((l.collate c == l.collate a) && (l.collate d == l.collate a'))
        ≡ ((l.collate c == l.collate b) && (l.collate d == l.collate b'))
  same_pair a b a' b' c d h =
      let e : l.collate a ≡ l.collate b = ground (arith, eq_iff (l.collate a) (l.collate b)) in
      let e' : l.collate a' ≡ l.collate b' = ground (arith, eq_iff (l.collate a') (l.collate b')) in
      rw (e, e')

  module _ (p : Parameters) (now : Time) where
    pub upsert_lead-put :
        (rs : List Lead)
        → upsert_lead l p now rs
          ≡ put (is_lead_of l p.email) (refresh_lead l p now) (new_lead l p now) rs
    unfolding upsert_lead put
    upsert_lead-put [] = refl
    upsert_lead-put (r ∷ rs) = rw (upsert_lead-put rs)

    upsert_lead_unique :
        (email : String) (rs : List Lead)
        → count (is_lead_of l email) rs ≤ 1
        → count (is_lead_of l email) (upsert_lead l p now rs) ≤ 1
    unfolding is_lead_of
    upsert_lead_unique email rs h = rw (upsert_lead-put rs) (
        count-put (is_lead_of l email) (is_lead_of l p.email) (refresh_lead l p now)
          (new_lead l p now) rs (λ r. refl) (λ own r. same_left p.email email r.email own) h)

    pub upsert_order-put :
        (lead_id : String) (rs : List Order)
        → upsert_order l p now lead_id rs
          ≡ put
              (is_order_of l p.gateway p.transaction_id)
              (refresh_order l p now)
              (new_order l p now lead_id)
              rs
    unfolding upsert_order put
    upsert_order-put lead_id [] = refl
    upsert_order-put lead_id (r ∷ rs) = rw (upsert_order-put lead_id rs)

    upsert_order_unique :
        (lead_id g n : String) (rs : List Order)
        → count (is_order_of l g n) rs ≤ 1
        → count (is_order_of l g n) (upsert_order l p now lead_id rs) ≤ 1
    unfolding is_order_of
    upsert_order_unique lead_id g n rs h = rw (upsert_order-put lead_id rs) (
        count-put (is_order_of l g n) (is_order_of l p.gateway p.transaction_id)
          (refresh_order l p now) (new_order l p now lead_id) rs (λ r. refl)
          (λ own r. same_pair p.gateway g p.transaction_id n r.gateway r.transaction_id own) h)

    insert_status_unique :
        (id order_id channel o c : String) (rs : List DistributionStatus)
        → count (is_status_of l o c) rs ≤ 1
        → count (is_status_of l o c) (insert_status l p now id order_id channel rs) ≤ 1
    unfolding insert_status is_status_of
    insert_status_unique id order_id channel o c rs h =
        count-insert (is_status_of l o c) (is_status_of l order_id channel)
          (status_row id order_id channel p.correlation_id now) rs
          (λ own r. same_pair order_id o channel c r.order_id r.channel own) h

    insert_statuses_unique :
        (order_id o c : String) (rs : List DistributionStatus)
        → count (is_status_of l o c) rs ≤ 1
        → count (is_status_of l o c) (insert_statuses l p now order_id rs) ≤ 1
    unfolding insert_statuses
    insert_statuses_unique order_id o c rs h =
        let insert = insert_status_unique in
        insert p.dist_whatsapp_id order_id channel_whatsapp o c _ (
          insert p.dist_callcenter_id order_id channel_call_center o c _ (
            insert p.dist_email_id order_id channel_email o c _
              (insert p.dist_sms_id order_id channel_sms o c rs h)))

    events_unique :
        (order_id o e : String) (t : Tables)
        → count (is_event_of l o e) t.lead_events ≤ 1
        → count (is_event_of l o e) (insert_event l p now order_id t).lead_events ≤ 1
    unfolding insert_event is_event_of
    events_unique order_id o e t h =
        let kept =
          count-insert (is_event_of l o e) (is_event_of l order_id p.event)
            (new_event l p now order_id) t.lead_events
            (λ own r. same_pair order_id o p.event e r.order_id r.event own) h in
        elim (Bool-cases (any (is_event_of l order_id p.event) t.lead_events)) [
          | inl known ↦ rw known h
          | inr fresh ↦ rw fresh (rw fresh at kept)
        ]

    statuses_unique :
        (order_id o c : String) (t : Tables)
        → count (is_status_of l o c) t.distribution_status ≤ 1
        → count (is_status_of l o c) (insert_event l p now order_id t).distribution_status ≤ 1
    unfolding insert_event
    statuses_unique order_id o c t h =
        elim (Bool-cases (any (is_event_of l order_id p.event) t.lead_events)) [
          | inl known ↦ rw known h
          | inr fresh ↦ rw fresh (insert_statuses_unique order_id o c t.distribution_status h)
        ]

    pub same_leads :
        (order_id : String) (t : Tables) → (insert_event l p now order_id t).leads ≡ t.leads
    unfolding insert_event
    same_leads order_id t = ground arith

    pub same_orders :
        (order_id : String) (t : Tables) → (insert_event l p now order_id t).orders ≡ t.orders
    unfolding insert_event
    same_orders order_id t = ground arith

    -- A call of the procedure keeps all four unique indexes: of the leads by email, the orders by
    -- gateway and transaction, the events by order and name, and the distribution rows by order and
    -- channel.
    pub sp_insert_lead-IsUnique : (t : Tables) → IsUnique t → IsUnique (sp_insert_lead l p now t).0
    unfolding sp_insert_lead
    sp_insert_lead-IsUnique t h = record {
      leads = λ email. rw (same_leads _ _) (upsert_lead_unique email t.leads (h.leads email));
      orders = λ g n. rw (same_orders _ _) (upsert_order_unique _ g n t.orders (h.orders g n));
      events = λ o e. events_unique _ o e _ (h.events o e);
      statuses = λ o c. statuses_unique _ o c _ (h.statuses o c);
    }
