-- ===== src/Worker/Procedure/Dispatch.antt =====
-- The events of `lead_events` against the rows of `distribution_status`, over a call of
-- `sp_insert_lead`.
use gex_test_jonatha.Prelude.{
  ◌≡◌, String, true, List, [], ◌∷◌, any, All, All-map, All-append, Bool-cases, inl, inr, arith,
}
use gex_test_jonatha.Common.Config.{
  all_channels, channel_sms, channel_email, channel_call_center, channel_whatsapp,
}
use gex_test_jonatha.Common.Models.{Time}
use gex_test_jonatha.Common.Library.{Library}
use gex_test_jonatha.World.{Tables, DistributionStatus}
use gex_test_jonatha.Worker.Procedure.{
  Parameters, is_event_of, is_status_of, new_event, insert_statuses, insert_event, sp_insert_lead,
}
use gex_test_jonatha.Worker.Procedure.Channels.{insert_status_keeps, insert_statuses-All}

module _ (l : Library) where
  -- the order has a row for each channel
  abbrev pub HasChannels : List DistributionStatus → String → Type 0
  HasChannels rs o = All (λ c. any (is_status_of l o c) rs ≡ true) all_channels

  -- the order of each event has them
  abbrev pub IsDispatched : Tables → Type 0
  IsDispatched t = All (λ e. HasChannels t.distribution_status e.order_id) t.lead_events

  module _ (p : Parameters) (now : Time) where
    insert_statuses_keeps :
        (o' o c : String) (rs : List DistributionStatus)
        → any (is_status_of l o c) rs ≡ true
        → any (is_status_of l o c) (insert_statuses l p now o' rs) ≡ true
    unfolding insert_statuses
    insert_statuses_keeps o' o c rs h =
        let keeps = insert_status_keeps l p now in
        keeps p.dist_whatsapp_id o' channel_whatsapp o c _ (
          keeps p.dist_callcenter_id o' channel_call_center o c _ (
            keeps p.dist_email_id o' channel_email o c _
              (keeps p.dist_sms_id o' channel_sms o c rs h)))

    insert_event-IsDispatched :
        (o : String) (t : Tables) → IsDispatched t → IsDispatched (insert_event l p now o t)
    unfolding insert_event
    insert_event-IsDispatched o t h =
        let rs = insert_statuses l p now o t.distribution_status in
        elim (Bool-cases (any (is_event_of l o p.event) t.lead_events)) [
          | inl known ↦ rw known h
          | inr fresh ↦ rw fresh (
              All-append (λ e. HasChannels rs e.order_id) t.lead_events (new_event l p now o ∷ [])
                (All-map (λ e. HasChannels t.distribution_status e.order_id)
                  (λ e. HasChannels rs e.order_id)
                  (λ e k.
                    All-map (λ c. any (is_status_of l e.order_id c) t.distribution_status ≡ true)
                      (λ c. any (is_status_of l e.order_id c) rs ≡ true)
                      (λ c there. insert_statuses_keeps o e.order_id c t.distribution_status there)
                      all_channels k)
                  t.lead_events h)
                (insert_statuses-All l p now o t.distribution_status, tt))
        ]

    -- After a call of the procedure the order of each event has a row for each channel, if that held
    -- before.
    pub sp_insert_lead-IsDispatched :
        (t : Tables) → IsDispatched t → IsDispatched (sp_insert_lead l p now t).0
    unfolding sp_insert_lead
    sp_insert_lead-IsDispatched t h = insert_event-IsDispatched _ _ h

    -- The call leaves the keys of the webhooks alone.
    pub same_processed_events :
        (t : Tables) → (sp_insert_lead l p now t).0.processed_events ≡ t.processed_events
    unfolding sp_insert_lead insert_event
    same_processed_events t = ground arith
