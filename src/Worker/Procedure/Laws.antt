-- ===== src/Worker/Procedure/Laws.antt =====
-- `sp_insert_lead`, called again for the same event, and what a new event leaves in the tables.
use gex_test_jonatha.Prelude.{
  ◌≡◌, refl, sym, ap, ◌∙◌, String, true, false, List, [], ◌∷◌, any, any-append, arith, Bool-cases,
  inl, inr, eq_refl,
}
use gex_test_jonatha.Common.Models.{Time}
use gex_test_jonatha.Common.Library.{Library}
use gex_test_jonatha.World.{Tables, Order}
use gex_test_jonatha.Worker.Procedure.{
  Parameters, is_order_of, is_event_of, upsert_order, resolve_order, new_event, insert_event,
  sp_insert_lead, upsert_lead, resolve_lead, new_order, refresh_order,
}

-- Two calls for one order of one gateway, and one event of it.
pub record IsSameEvent (p p' : Parameters) : Type 0 where
  pub gateway : p'.gateway ≡ p.gateway
  pub transaction_id : p'.transaction_id ≡ p.transaction_id
  pub event : p'.event ≡ p.event

module _ (l : Library) where
  is_order_of-new :
      (p : Parameters) (now : Time) (lead_id : String)
      → is_order_of l p.gateway p.transaction_id (new_order l p now lead_id) ≡ true
  unfolding is_order_of
  is_order_of-new p now lead_id =
      rw (eq_refl (l.collate p.gateway), eq_refl (l.collate p.transaction_id))

  is_order_of-refresh :
      (p : Parameters) (now : Time) (g t : String) (r : Order)
      → is_order_of l g t (refresh_order l p now r) ≡ is_order_of l g t r
  unfolding is_order_of
  is_order_of-refresh p now g t r = refl

  -- The id of an order is that of its row, or the one that the call brings.
  pub resolve_order-upsert_order :
      (p : Parameters) (now : Time) (lead_id d : String) (rs : List Order)
      → resolve_order l p.gateway p.transaction_id d (upsert_order l p now lead_id rs)
        ≡ resolve_order l p.gateway p.transaction_id p.order_id rs
  unfolding resolve_order upsert_order
  resolve_order-upsert_order p now lead_id d [] = ground (arith, is_order_of-new p now lead_id)
  resolve_order-upsert_order p now lead_id d (r ∷ rs) =
      elim (Bool-cases (is_order_of l p.gateway p.transaction_id r)) [
        | inl here ↦ ground (arith, is_order_of-refresh p now p.gateway p.transaction_id r)
        | inr there ↦ ground (arith, resolve_order-upsert_order p now lead_id d rs)
      ]

  -- the order that the call is about, in the tables before it
  abbrev pub order_id_of : Parameters → Tables → String
  order_id_of p t = resolve_order l p.gateway p.transaction_id p.order_id t.orders

  sp_insert_lead-order_id :
      (p : Parameters) (now : Time) (t : Tables)
      → (sp_insert_lead l p now t).1.order_id ≡ order_id_of p t
  unfolding sp_insert_lead
  sp_insert_lead-order_id p now t = resolve_order-upsert_order p now _ p.order_id t.orders

  is_event_of-new :
      (p : Parameters) (now : Time) (order_id : String)
      → is_event_of l order_id p.event (new_event l p now order_id) ≡ true
  unfolding is_event_of
  is_event_of-new p now order_id = rw (eq_refl (l.collate order_id), eq_refl (l.collate p.event))

  -- the event is known once the procedure has run
  insert_event-is_new_event :
      (p : Parameters) (now : Time) (order_id : String) (t : Tables)
      → any (is_event_of l order_id p.event) (insert_event l p now order_id t).lead_events ≡ true
  unfolding insert_event
  insert_event-is_new_event p now order_id t = ground (
    arith,
    any-append (is_event_of l order_id p.event) t.lead_events (new_event l p now order_id ∷ []),
    is_event_of-new p now order_id,
  )

  -- the order keeps its id
  resolve_order-sp_insert_lead :
      (p : Parameters) (now : Time) (d : String) (t : Tables)
      → resolve_order l p.gateway p.transaction_id d (sp_insert_lead l p now t).0.orders
        ≡ order_id_of p t
  unfolding sp_insert_lead insert_event
  resolve_order-sp_insert_lead p now d t =
      let lead_id = resolve_lead l p.email p.lead_id (upsert_lead l p now t.leads) in
      ground (arith, resolve_order-upsert_order p now lead_id d t.orders)

  -- an event that is known leaves its tables alone
  sp_insert_lead_known :
      (p : Parameters) (now : Time) (t : Tables)
      → any (is_event_of l (sp_insert_lead l p now t).1.order_id p.event) t.lead_events ≡ true
      → ((sp_insert_lead l p now t).1.is_new ≡ false)
        × ((sp_insert_lead l p now t).0.lead_events ≡ t.lead_events)
        × ((sp_insert_lead l p now t).0.distribution_status ≡ t.distribution_status)
  unfolding sp_insert_lead insert_event
  sp_insert_lead_known p now t h = rw h (refl, refl, refl)

  sp_insert_lead-is_event_of :
      (p : Parameters) (now : Time) (t : Tables)
      → any
          (is_event_of l (sp_insert_lead l p now t).1.order_id p.event)
          (sp_insert_lead l p now t).0.lead_events
        ≡ true
  unfolding sp_insert_lead
  sp_insert_lead-is_event_of p now t = insert_event-is_new_event p now _ _

  same_order_id :
      (p p' : Parameters) (now now' : Time) (t : Tables)
      → IsSameEvent p p'
      → (sp_insert_lead l p' now' (sp_insert_lead l p now t).0).1.order_id
        ≡ (sp_insert_lead l p now t).1.order_id
  same_order_id p p' now now' t h =
      let t1 = (sp_insert_lead l p now t).0 in
      sp_insert_lead-order_id p' now' t1
      ∙ ap (λ (g : String). resolve_order l g p'.transaction_id p'.order_id t1.orders) h.gateway
      ∙ ap (λ (n : String). resolve_order l p.gateway n p'.order_id t1.orders) h.transaction_id
      ∙ resolve_order-sp_insert_lead p now p'.order_id t
      ∙ sym (sp_insert_lead-order_id p now t)

  -- A second call for the same event finds the same order, is not new, and leaves the events and the
  -- distribution rows as they are.
  pub sp_insert_lead_again :
      (p p' : Parameters) (now now' : Time) (t : Tables)
      → IsSameEvent p p'
      → let (t1, first) = sp_insert_lead l p now t in
        let (t2, second) = sp_insert_lead l p' now' t1 in
        (second.order_id ≡ first.order_id)
        × (second.is_new ≡ false)
        × (t2.lead_events ≡ t1.lead_events)
        × (t2.distribution_status ≡ t1.distribution_status)
  sp_insert_lead_again p p' now now' t h =
      let t1 = (sp_insert_lead l p now t).0 in
      let same = same_order_id p p' now now' t h in
      let known : any (is_event_of l (sp_insert_lead l p' now' t1).1.order_id p'.event)
            t1.lead_events
          ≡ true =
        ap (λ (o : String). any (is_event_of l o p'.event) t1.lead_events) same
        ∙ ap
            (λ (e : String).
              any (is_event_of l (sp_insert_lead l p now t).1.order_id e) t1.lead_events)
            h.event
        ∙ sp_insert_lead-is_event_of p now t in
      let (old, events, statuses) = sp_insert_lead_known p' now' t1 known in
      (same, old, events, statuses)
