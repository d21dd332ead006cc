-- ===== src/Pipeline/Fed.antt =====
-- Runs in which the worker consumes what the receiver has published, as often as RabbitMQ delivers
-- it.
use gex_test_jonatha.Prelude.{
  ℕ, zero, suc, ◌≤◌, ◌≡◌, refl, ◌∙◌, String, Bool, true, false, subst, List, [], ◌∷◌, ◌⊎◌, inl, inr,
  take, count, All, All-append, arith, eq_refl, eq_iff, ◌==◌, if◌then◌else◌, Bool-cases,
}
use gex_test_jonatha.Common.Config.{AppSettings, event_order_approved}
use gex_test_jonatha.Common.Models.{Time, LeadReceivedMessage}
use gex_test_jonatha.Common.Library.{Library}
use gex_test_jonatha.World.{World, Tables, LeadEvent, Published, lead}
use gex_test_jonatha.World.Keeps.{At}
use gex_test_jonatha.Receiver.Routes.Keeps.{IsApproved}
use gex_test_jonatha.Worker.Procedure.{Parameters, new_event, sp_insert_lead, is_event_of}
use gex_test_jonatha.Worker.Consumer.{dist_publishes}
use gex_test_jonatha.Worker.Consumer.Laws.{messages}
use gex_test_jonatha.Pipeline.{
  Step, webhook, lead as lead_step, sms, environment, Reach, here, next,
}
use gex_test_jonatha.Pipeline.Closed.{IsInvariant, due_of}
use gex_test_jonatha.Pipeline.Runs.{Needs, Step-At, Reach-At}
use gex_test_jonatha.Pipeline.Once.{firsts, IsOnce, IsOnce-IsInvariant, sp_insert_lead-events}
use gex_test_jonatha.Pipeline.Consistent.{IsConsistent, Reach-IsConsistent}

-- The lead has been published.
abbrev pub HasLead : LeadReceivedMessage → List Published → Type 0
HasLead m [] = ⊥
HasLead m (p ∷ ps) = (p.body ≡ lead m) ⊎ HasLead m ps

abbrev pub IsOfApproved : LeadReceivedMessage → Type 0
IsOfApproved m = m.event ≡ event_order_approved

abbrev pub IsApprovedEvent : LeadEvent → Type 0
IsApprovedEvent e = e.event ≡ event_order_approved

-- Each lead that is consumed has been published before.
abbrev pub FedStep : {l : Library} {s : AppSettings} {w v : World} → Step l s w v → Type 0
FedStep (lead_step raw context msg cid w) = HasLead msg w.published
FedStep _ = Unit {0}

abbrev pub IsFed : {l : Library} {s : AppSettings} {w v : World} → Reach l s w v → Type 0
IsFed here = Unit {0}
IsFed (next before step) = IsFed before × FedStep step

-- All leads and all events are of approved orders.
pub record IsOnlyApproved (t s : Tables) (ps : List Published) : Type 0 where
  pub leads : All (λ p. IsApproved p.body) ps
  pub stored : All IsApprovedEvent t.lead_events
  pub seen : All IsApprovedEvent s.lead_events

HasLead-approved :
    (m : LeadReceivedMessage) (ps : List Published)
    → HasLead m ps
    → All (λ p. IsApproved p.body) ps
    → IsOfApproved m
HasLead-approved m [] k h = elim k [ ]
HasLead-approved m (p ∷ ps) (inl e) (h, hs) = subst IsApproved e h
HasLead-approved m (p ∷ ps) (inr k) (h, hs) = HasLead-approved m ps k hs

messages-IsApproved :
    (k : ℕ) (msg : LeadReceivedMessage) (id cid : String) (qs : List (String × String))
    → All (λ p. IsApproved p.body) (take k (messages msg id cid qs))
messages-IsApproved zero msg id cid qs = tt
messages-IsApproved (suc k) msg id cid [] = tt
messages-IsApproved (suc k) msg id cid ((q, c) ∷ qs) = (tt, messages-IsApproved k msg id cid qs)

module _ (l : Library) where
  sp_insert_lead-approved :
      (p : Parameters) (now : Time) (t : Tables)
      → p.event ≡ event_order_approved
      → All IsApprovedEvent t.lead_events
      → All IsApprovedEvent (sp_insert_lead l p now t).0.lead_events
  sp_insert_lead-approved p now t e h =
      let row = (sp_insert_lead l p now t).1 in
      elim (Bool-cases row.is_new) [
        | inl new ↦
            rw (sp_insert_lead-events l p now t, new)
              (All-append IsApprovedEvent t.lead_events (new_event l p now row.order_id ∷ []) h
                (e, tt))
        | inr old ↦ rw (sp_insert_lead-events l p now t, old) h
      ]

  due-IsApproved :
      (is_new : Bool) (k : ℕ) (msg : LeadReceivedMessage) (id cid : String)
      → All
          (λ p. IsApproved p.body)
          (take k (if is_new then messages msg id cid dist_publishes else []))
  due-IsApproved true k msg id cid = messages-IsApproved k msg id cid dist_publishes
  due-IsApproved false zero msg id cid = tt
  due-IsApproved false (suc k) msg id cid = tt

  IsOnlyApproved-IsInvariant : IsInvariant l IsOfApproved IsOnlyApproved
  IsOnlyApproved-IsInvariant = record {
    sessions = record {
      commits = λ t s ps h. record { leads = h.leads; stored = h.seen; seen = h.seen };
      opens = λ t s ps h. record { leads = h.leads; stored = h.stored; seen = h.stored };
    };
    payload = λ r t s ps h. record { leads = h.leads; stored = h.stored; seen = h.seen };
    event = λ r t s ps h. record { leads = h.leads; stored = h.stored; seen = h.seen };
    statuses = λ o f set t s ps h. record { leads = h.leads; stored = h.stored; seen = h.seen };
    sends = λ p first a t s ps h. record {
      leads = All-append (λ x. IsApproved x.body) ps (p ∷ []) h.leads (a, tt);
      stored = h.stored;
      seen = h.seen;
    };
    procedure = λ p now msg cid k t s ps fits e h.
        let row = (sp_insert_lead l p now t).1 in
        let events = sp_insert_lead-approved p now t (e ∙ fits) h.stored in
        record {
          leads =
              All-append (λ x. IsApproved x.body) ps (take k (due_of msg cid row)) h.leads
                (due-IsApproved row.is_new k msg row.order_id cid);
          stored = events;
          seen = events;
        };
  }

  module _ (s : AppSettings) where
    Needs-fed :
        {w v : World} (step : Step l s w v)
        → FedStep step
        → At IsOnlyApproved w
        → Needs IsOfApproved step
    Needs-fed (webhook req w) fed h = tt
    Needs-fed (lead_step raw context msg cid w) fed h = HasLead-approved msg w.published fed h.leads
    Needs-fed (sms raw context msg cid w) fed h = tt
    Needs-fed (environment fs cs as' now p w) fed h = tt

    Reach-IsOnlyApproved :
        {w v : World} (run : Reach l s w v) → IsFed run → At IsOnlyApproved w → At IsOnlyApproved v
    Reach-IsOnlyApproved here fed h = h
    Reach-IsOnlyApproved (next before step) (fed, now) h =
        let mid = Reach-IsOnlyApproved before fed h in
        Step-At l IsOfApproved IsOnlyApproved IsOnlyApproved-IsInvariant s step
          (Needs-fed step now mid) mid

  own_event :
      (o : String) (e : LeadEvent)
      → (e.order_id == o) ≡ true
      → IsApprovedEvent e
      → is_event_of l o event_order_approved e ≡ true
  unfolding is_event_of
  own_event o e own h =
      rw
        (
          (eq_iff e.order_id o).0 own,
          h,
          eq_refl (l.collate o),
          eq_refl (l.collate event_order_approved),
        )
        refl

  -- An order's events, all approved, are equal for the unique index.
  events_of-approved :
      (o : String) (es : List LeadEvent)
      → All IsApprovedEvent es
      → count (λ e. e.order_id == o) es ≤ count (is_event_of l o event_order_approved) es
  events_of-approved o [] h = omega arith
  events_of-approved o (e ∷ es) (h, hs) =
      let rest = events_of-approved o es hs in
      elim (Bool-cases (e.order_id == o)) [
        | inl own ↦ rw (own, own_event o e own h) (omega (arith, rest))
        | inr other ↦ rw other (ground (arith, rest))
      ]

  -- In a run that starts with no messages and no events, and in which the worker consumes only leads
  -- that the receiver has published, in any order and as often as RabbitMQ delivers them, whatever
  -- the calls raise: at most one message of an order to a channel is published that is no retry, if
  -- the tables are consistent at the start.
  pub distributed_once :
      (s : AppSettings) (o c : String) (w v : World) (run : Reach l s w v)
      → IsFed run
      → w.published ≡ []
      → w.tables.lead_events ≡ []
      → w.session.lead_events ≡ []
      → IsConsistent l w.tables
      → IsConsistent l w.session
      → firsts o c v.published ≤ 1
  distributed_once s o c w v run fed none_sent none_stored none_seen tables session =
      let once =
        Reach-At l (IsOnce o c) (IsOnce-IsInvariant o c l) s run
          (record { committed = rw none_sent (omega arith); seen = rw none_sent (omega arith) }) in
      let approved =
        Reach-IsOnlyApproved s run fed (record {
          leads = rw none_sent tt;
          stored = rw none_stored tt;
          seen = rw none_seen tt;
        }) in
      omega (
        arith,
        once.committed,
        events_of-approved o v.tables.lead_events approved.stored,
        (Reach-IsConsistent l s w v tables session run).unique.events o event_order_approved,
      )
