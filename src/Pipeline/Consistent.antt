-- ===== src/Pipeline/Consistent.antt =====
-- The indexes and the foreign keys of sql/001_create_tables.sql over any run of the pipeline.
use gex_test_jonatha.Prelude.{
  ◌≤◌, ◌≡◌, refl, String, true, Option, List, [], ◌∷◌, any, count, All, All-map, Bool-cases, ◌⊎◌,
  inl, inr, some,
}
use gex_test_jonatha.Common.Config.{
  AppSettings, all_channels, dist_status_failed, dist_status_delivered,
}
use gex_test_jonatha.Common.Library.{Library}
use gex_test_jonatha.Common.Models.{Time}
use gex_test_jonatha.World.{World, Tables, DistributionStatus}
use gex_test_jonatha.World.Keeps.{Both}
use gex_test_jonatha.Receiver.Db.{has_key}
use gex_test_jonatha.Receiver.Db.Laws.{upsert_unique}
use gex_test_jonatha.Worker.Procedure.{is_status_of, pending_status}
use gex_test_jonatha.Worker.Procedure.Unique.{IsUnique, sp_insert_lead-IsUnique}
use gex_test_jonatha.Worker.Procedure.References.{
  IsReferential, HasOrder, sp_insert_lead-IsReferential, sp_insert_lead_statuses,
}
use gex_test_jonatha.Worker.Procedure.Dispatch.{
  HasChannels, IsDispatched, sp_insert_lead-IsDispatched, same_processed_events,
}
use gex_test_jonatha.Worker.Sms.{is_row_of, update_rows}
use gex_test_jonatha.Pipeline.{Reach}
use gex_test_jonatha.Pipeline.Closed.{
  IsSetClause, marked_failed, delivered, attempt, failed, next_retry, IsClosed,
  IsClosed-IsInvariant,
}
use gex_test_jonatha.Pipeline.Runs.{Reach-At}

module _ (l : Library) where
  -- A row is pending, failed, or delivered at some time.
  abbrev IsOutcome : DistributionStatus → Type 0
  IsOutcome r =
      (r.status ≡ pending_status)
      ⊎ ((r.status ≡ dist_status_failed)
          ⊎ ((r.status ≡ dist_status_delivered) × ((time : Time) × (r.delivered_at ≡ some time))))

  -- The five unique indexes and the foreign keys hold, and the order of each event has a row for
  -- each channel; each row is pending, failed, or delivered at some time.
  pub record IsConsistent (t : Tables) : Type 0 where
    pub keys : (g n e : String) → count (has_key l g n e) t.processed_events ≤ 1
    pub unique : IsUnique l t
    pub referential : IsReferential l t
    pub dispatched : IsDispatched l t
    pub outcomes : All IsOutcome t.distribution_status

  -- what a SET clause leaves of the row's key
  record KeepsKey (f : DistributionStatus → DistributionStatus) : Type 0 where
    order_id : (r : DistributionStatus) → (f r).order_id ≡ r.order_id
    channel : (r : DistributionStatus) → (f r).channel ≡ r.channel

  IsSetClause-KeepsKey :
      {f : DistributionStatus → DistributionStatus} → IsSetClause l f → KeepsKey f
  IsSetClause-KeepsKey (marked_failed e now) = record { order_id = λ r. refl; channel = λ r. refl }
  IsSetClause-KeepsKey (delivered lag now) = record { order_id = λ r. refl; channel = λ r. refl }
  IsSetClause-KeepsKey (attempt e now) = record { order_id = λ r. refl; channel = λ r. refl }
  IsSetClause-KeepsKey (failed now) = record { order_id = λ r. refl; channel = λ r. refl }
  IsSetClause-KeepsKey (next_retry d now) = record { order_id = λ r. refl; channel = λ r. refl }

  module _ (o : Option String) (f : DistributionStatus → DistributionStatus) (k : KeepsKey f) where
    update_rows-count :
        (i c : String) (rs : List DistributionStatus)
        → count (is_status_of l i c) (update_rows l o f rs) ≡ count (is_status_of l i c) rs
    unfolding update_rows is_status_of
    update_rows-count i c [] = refl
    update_rows-count i c (r ∷ rs) = elim (Bool-cases (is_row_of l o r)) [
      | inl own ↦ rw (own, k.order_id r, k.channel r, update_rows-count i c rs)
      | inr other ↦ rw (other, update_rows-count i c rs)
    ]

    update_rows-any :
        (i c : String) (rs : List DistributionStatus)
        → any (is_status_of l i c) (update_rows l o f rs) ≡ any (is_status_of l i c) rs
    unfolding update_rows is_status_of
    update_rows-any i c [] = refl
    update_rows-any i c (r ∷ rs) = elim (Bool-cases (is_row_of l o r)) [
      | inl own ↦ rw (own, k.order_id r, k.channel r, update_rows-any i c rs)
      | inr other ↦ rw (other, update_rows-any i c rs)
    ]

  All-update_rows :
      (o : Option String) (f : DistributionStatus → DistributionStatus)
      (P : DistributionStatus → Type 0)
      → ((r : DistributionStatus) → P r → P (f r))
      → (rs : List DistributionStatus) → All P rs
      → All P (update_rows l o f rs)
  unfolding update_rows
  All-update_rows o f P k [] h = h
  All-update_rows o f P k (r ∷ rs) (h, hs) = elim (Bool-cases (is_row_of l o r)) [
    | inl own ↦ rw own (k r h, All-update_rows o f P k rs hs)
    | inr other ↦ rw other (h, All-update_rows o f P k rs hs)
  ]

  IsSetClause-IsOutcome :
      {f : DistributionStatus → DistributionStatus}
      → IsSetClause l f
      → (r : DistributionStatus) → IsOutcome r
      → IsOutcome (f r)
  IsSetClause-IsOutcome (marked_failed e now) r h = inr (inl refl)
  IsSetClause-IsOutcome (delivered lag now) r h = inr (inr (refl, (now, refl)))
  IsSetClause-IsOutcome (attempt e now) r h = h
  IsSetClause-IsOutcome (failed now) r h = inr (inl refl)
  IsSetClause-IsOutcome (next_retry d now) r h = h

  IsConsistent-IsClosed : IsClosed l IsConsistent
  IsConsistent-IsClosed = record {
    payload = λ r t h. record {
      keys = h.keys;
      unique = record {
        leads = h.unique.leads;
        orders = h.unique.orders;
        events = h.unique.events;
        statuses = h.unique.statuses;
      };
      referential = record {
        orders = h.referential.orders;
        events = h.referential.events;
        statuses = h.referential.statuses;
      };
      dispatched = h.dispatched;
      outcomes = h.outcomes;
    };
    event = λ r t h. record {
      keys = λ g n e. upsert_unique l g n e r t.processed_events (h.keys g n e);
      unique = record {
        leads = h.unique.leads;
        orders = h.unique.orders;
        events = h.unique.events;
        statuses = h.unique.statuses;
      };
      referential = record {
        orders = h.referential.orders;
        events = h.referential.events;
        statuses = h.referential.statuses;
      };
      dispatched = h.dispatched;
      outcomes = h.outcomes;
    };
    procedure = λ p now t h. record {
      keys = λ g n e. rw (same_processed_events l p now t) (h.keys g n e);
      dispatched = sp_insert_lead-IsDispatched l p now t h.dispatched;
      outcomes = sp_insert_lead_statuses l p now IsOutcome t (λ _ _ _. inl refl) h.outcomes;
      unique = sp_insert_lead-IsUnique l p now t h.unique;
      referential = sp_insert_lead-IsReferential l p now t h.referential;
    };
    statuses = λ o f set t h.
        let k = IsSetClause-KeepsKey set in
        record {
          keys = h.keys;
          unique = record {
            leads = h.unique.leads;
            orders = h.unique.orders;
            events = h.unique.events;
            statuses = λ i c.
                rw (update_rows-count o f k i c t.distribution_status) (h.unique.statuses i c);
          };
          dispatched =
              All-map (λ e. HasChannels l t.distribution_status e.order_id)
                (λ e. HasChannels l (update_rows l o f t.distribution_status) e.order_id)
                (λ e d.
                  All-map (λ c. any (is_status_of l e.order_id c) t.distribution_status ≡ true)
                    (λ c.
                      any (is_status_of l e.order_id c) (update_rows l o f t.distribution_status)
                      ≡ true)
                    (λ c there. rw (update_rows-any o f k e.order_id c t.distribution_status) there)
                    all_channels d)
                t.lead_events h.dispatched;
          referential = record {
            orders = h.referential.orders;
            events = h.referential.events;
            statuses =
                All-update_rows o f (λ r. HasOrder l t.orders r.order_id)
                  (λ r there. rw (k.order_id r) there) t.distribution_status h.referential.statuses;
          };
          outcomes =
              All-update_rows o f IsOutcome (IsSetClause-IsOutcome set) t.distribution_status
                h.outcomes;
        };
  }

  module _ (s : AppSettings) where
    -- After any sequence of webhooks, leads and SMS, each whole and with its retries, whatever the
    -- calls to MySQL, RabbitMQ and the SMS provider raise, the committed tables have all unique
    -- indexes and foreign keys, and a distribution row for each event's order and each channel, each
    -- row pending, failed, or delivered at some time, if they and what the session sees had them
    -- before.
    pub Reach-IsConsistent :
        (w v : World)
        → IsConsistent w.tables
        → IsConsistent w.session
        → Reach l s w v
        → IsConsistent v.tables
    Reach-IsConsistent w v committed seen run =
        (Reach-At l (λ t t' ps. Both IsConsistent t t')
          (IsClosed-IsInvariant l IsConsistent IsConsistent-IsClosed) s run
          (record { committed = committed; seen = seen })).committed
