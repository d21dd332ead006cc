-- ===== src/Pipeline/Closed.antt =====
-- What a property of the tables has to survive: the writes of the receiver and of the worker.
use gex_test_jonatha.Prelude.{
  ℕ, ◌≡◌, String, false, Option, List, [], ◌∷◌, ◌++◌, take, if◌then◌else◌,
}
use gex_test_jonatha.Exec.{Exn}
use gex_test_jonatha.Common.Models.{Time, LeadReceivedMessage}
use gex_test_jonatha.Common.Library.{Library}
use gex_test_jonatha.World.{
  Tables, RawPayload, ProcessedEvent, DistributionStatus, Published, is_first,
}
use gex_test_jonatha.World.Keeps.{Property, IsTransactional, Both, Both-IsTransactional}
use gex_test_jonatha.Receiver.Db.{add_raw_payload, put_events, upsert}
use gex_test_jonatha.Receiver.Routes.Keeps.{IsApproved}
use gex_test_jonatha.Worker.Procedure.{Parameters, Outcome, sp_insert_lead}
use gex_test_jonatha.Worker.Consumer.{dist_publishes}
use gex_test_jonatha.Worker.Consumer.Laws.{messages}
use gex_test_jonatha.Worker.Sms.{
  put_statuses, update_rows, set_mark_failed, set_delivered, set_attempt, set_failed,
  set_next_retry,
}

-- the messages that follow the procedure
abbrev pub due_of : LeadReceivedMessage → String → Outcome → List Published
due_of msg cid row = if row.is_new then messages msg row.order_id cid dist_publishes else []

module _ (l : Library) where
  -- the SET clauses of the worker
  pub data IsSetClause : (DistributionStatus → DistributionStatus) → Type 0 where
    marked_failed : (e : Exn) (now : Time) → IsSetClause (set_mark_failed e now)
    delivered : (lag : ℕ) (now : Time) → IsSetClause (set_delivered lag now)
    attempt : (e : Exn) (now : Time) → IsSetClause (set_attempt e now)
    failed : (now : Time) → IsSetClause (set_failed now)
    next_retry : (delay_ms : ℕ) (now : Time) → IsSetClause (set_next_retry delay_ms now)

  -- What the writes of the receiver and of the worker keep, if the leads are such as `L` says. The
  -- procedure and the messages that follow it are one write, since any of them may be missing.
  pub record IsInvariant (L : LeadReceivedMessage → Type 0) (Q : Property) : Type 0 where
    pub sessions : IsTransactional Q
    pub payload :
        (r : RawPayload) (t s : Tables) (ps : List Published)
        → Q t s ps
        → Q t (add_raw_payload r s) ps
    pub event :
        (r : ProcessedEvent) (t s : Tables) (ps : List Published)
        → Q t s ps
        → Q t (put_events (upsert l r s.processed_events).0 s) ps
    pub statuses :
        (o : Option String) (f : DistributionStatus → DistributionStatus)
        → IsSetClause f
        → (t s : Tables) (ps : List Published) → Q t s ps
        → Q t (put_statuses (update_rows l o f s.distribution_status) s) ps
    pub sends :
        (p : Published)
        → is_first p ≡ false
        → IsApproved p.body
        → (t s : Tables) (ps : List Published) → Q t s ps
        → Q t s (ps ++ p ∷ [])
    pub procedure :
        (p : Parameters) (now : Time) (msg : LeadReceivedMessage) (cid : String) (k : ℕ)
        (t s : Tables) (ps : List Published)
        → L msg
        → p.event ≡ msg.event
        → Q t s ps
        → Q
            (sp_insert_lead l p now t).0
            (sp_insert_lead l p now t).0
            (ps ++ take k (due_of msg cid (sp_insert_lead l p now t).1))

  -- What they keep of the tables.
  pub record IsClosed (T : Tables → Type 0) : Type 0 where
    pub payload : (r : RawPayload) (t : Tables) → T t → T (add_raw_payload r t)
    pub event :
        (r : ProcessedEvent) (t : Tables) → T t → T (put_events (upsert l r t.processed_events).0 t)
    pub procedure :
        (p : Parameters) (now : Time) (t : Tables) → T t → T (sp_insert_lead l p now t).0
    pub statuses :
        (o : Option String) (f : DistributionStatus → DistributionStatus)
        → IsSetClause f
        → (t : Tables) → T t
        → T (put_statuses (update_rows l o f t.distribution_status) t)

  pub IsClosed-IsInvariant :
      (T : Tables → Type 0) → IsClosed T → IsInvariant (λ m. Unit {0}) (λ t s ps. Both T t s)
  IsClosed-IsInvariant T k = record {
    sessions = Both-IsTransactional T;
    payload = λ r t s ps h. record { committed = h.committed; seen = k.payload r s h.seen };
    event = λ r t s ps h. record { committed = h.committed; seen = k.event r s h.seen };
    statuses =
        λ o f set t s ps h. record { committed = h.committed; seen = k.statuses o f set s h.seen };
    sends = λ p first a t s ps h. h;
    procedure = λ p now msg cid n t s ps _ e h. record {
      committed = k.procedure p now t h.committed;
      seen = k.procedure p now t h.committed;
    };
  }
