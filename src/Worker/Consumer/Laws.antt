-- ===== src/Worker/Consumer/Laws.antt =====
-- What the consumer of `lead.received` publishes.
use mathlib.Core.List.{append-nil, append_assoc}
use gex_test_jonatha.Prelude.{
  ℕ, zero, suc, ◌<◌, length, take, ◌≡◌, refl, ap, ◌∙◌, String, true, false, none, some, List, [],
  ◌∷◌, ◌++◌, arith, if◌then◌else◌, Bool-cases, inl, inr,
}
use gex_test_jonatha.Exec.{ok, raise, lib}
use gex_test_jonatha.Common.Models.{LeadReceivedMessage}
use gex_test_jonatha.Common.Library.{Library}
use gex_test_jonatha.World.{World, Tables, Published, Fault, distribution}
use gex_test_jonatha.World.Session.{with_session}
use gex_test_jonatha.Worker.Procedure.{Parameters, Outcome, sp_insert_lead}
use gex_test_jonatha.Worker.Procedure.Laws.{sp_insert_lead_again}
use gex_test_jonatha.Worker.Retry.Laws.{retry_second}
use gex_test_jonatha.Worker.Retry.{consume_with_retry, sleep}
use gex_test_jonatha.Worker.Consumer.{
  broker_message, dist_publishes, distribution_message, publish_each, procedure_parameters,
  parameters_from, call_procedure, process_lead, handle_lead,
}

-- No call of MySQL or RabbitMQ raises.
abbrev pub quiet : World → World
quiet w = record w { faults = []; commit_faults = [] }

-- one message for each queue and channel
abbrev pub messages :
    LeadReceivedMessage → String → String → List (String × String) → List Published
messages msg order_id cid [] = []
messages msg order_id cid ((queue, channel) ∷ rest) =
    broker_message "dist" queue (distribution (distribution_message msg order_id cid channel))
    ∷ messages msg order_id cid rest

publish_each-quiet :
    (msg : LeadReceivedMessage) (order_id cid : String) (qs : List (String × String)) (w : World)
    → publish_each msg order_id cid qs (quiet w)
      ≡ (ok tt, record (quiet w) { published = w.published ++ messages msg order_id cid qs })
unfolding publish_each
publish_each-quiet msg order_id cid [] w = rw (append-nil w.published)
publish_each-quiet msg order_id cid ((queue, channel) ∷ rest) w =
    let m =
      broker_message "dist" queue (distribution (distribution_message msg order_id cid channel)) in
    publish_each-quiet msg order_id cid rest (record w { published = w.published ++ m ∷ [] })
    ∙ rw (append_assoc w.published (m ∷ []) (messages msg order_id cid rest))

module _ (l : Library) (msg : LeadReceivedMessage) (cid : String) where
  -- the parameters that the next call draws
  abbrev pub parameters_at : World → Parameters
  parameters_at w =
      let n = w.uuid_count in
      parameters_from l msg cid (l.uuid7 n) (l.uuid7 (suc n)) (l.uuid7 (suc (suc n)))
        (l.uuid7 (suc (suc (suc n)))) (l.uuid7 (suc (suc (suc (suc n)))))
        (l.uuid7 (suc (suc (suc (suc (suc n)))))) w.now

  abbrev pub after_procedure : World → Tables
  after_procedure w = (sp_insert_lead l (parameters_at w) w.now w.tables).0

  abbrev pub outcome_at : World → Outcome
  outcome_at w = (sp_insert_lead l (parameters_at w) w.now w.tables).1

  -- the world in which the procedure has run
  abbrev pub persisted : World → World
  persisted w = record w {
    tables = after_procedure w;
    session = after_procedure w;
    uuid_count = suc (suc (suc (suc (suc (suc w.uuid_count)))));
  }

  -- the messages of a new event
  abbrev pub due : World → List Published
  due w =
      if (outcome_at w).is_new then messages msg (outcome_at w).order_id cid dist_publishes else []

  -- While no call raises, a lead is persisted by one call of the procedure, and the four
  -- distribution messages are published exactly if its event is new.
  pub handle_lead-quiet :
      (w : World)
      → handle_lead l msg cid (quiet w)
        ≡ (ok tt, record (quiet (persisted w)) { published = w.published ++ due w })
  unfolding handle_lead process_lead with_session procedure_parameters call_procedure
  handle_lead-quiet w = elim (Bool-cases (outcome_at w).is_new) [
    | inl new ↦
        rw (new, publish_each-quiet msg (outcome_at w).order_id cid dist_publishes (persisted w))
    | inr old ↦ rw (old, append-nil w.published)
  ]

-- The k-th of the coming calls raises, and those before it do not.
abbrev pub failing_after : ℕ → String → String → List Fault
failing_after zero c m = some (c, m) ∷ []
failing_after (suc k) c m = none ∷ failing_after k c m

publish_each-failing :
    (msg : LeadReceivedMessage) (order_id cid c m : String) (qs : List (String × String)) (k : ℕ)
    (w : World)
    → k < length qs
    → publish_each msg order_id cid qs (record (quiet w) { faults = failing_after k c m }) ≡ (
      raise (lib c m),
      record (quiet w) { published = w.published ++ take k (messages msg order_id cid qs) },
    )
unfolding publish_each
publish_each-failing msg order_id cid c m [] k w h = absurd (omega arith)
publish_each-failing msg order_id cid c m ((queue, channel) ∷ rest) zero w h =
    rw (append-nil w.published)
publish_each-failing msg order_id cid c m ((queue, channel) ∷ rest) (suc k) w h =
    let x =
      broker_message "dist" queue (distribution (distribution_message msg order_id cid channel)) in
    publish_each-failing msg order_id cid c m rest k
      (record w { published = w.published ++ x ∷ [] }) (omega arith)
    ∙ rw (append_assoc w.published (x ∷ []) (take k (messages msg order_id cid rest)))

module _ (l : Library) (msg : LeadReceivedMessage) (cid : String) where
  first_try :
      (k : ℕ) (c m : String) (w : World)
      → (outcome_at l msg cid w).is_new ≡ true
      → k < 4
      → handle_lead l msg cid (record (quiet w) { faults = failing_after (suc k) c m }) ≡ (
        raise (lib c m),
        record (quiet (persisted l msg cid w)) {
          published = w.published ++ take k (due l msg cid w);
        },
      )
  unfolding handle_lead process_lead with_session procedure_parameters call_procedure
  first_try k c m w new h = rw (
    new,
    publish_each-failing msg (outcome_at l msg cid w).order_id cid c m dist_publishes k
        (persisted l msg cid w) h,
  )

  -- the event is known when the lead comes again
  due-persisted :
      (w : World) (v : World) → v.tables ≡ after_procedure l msg cid w → due l msg cid v ≡ []
  due-persisted w v same =
      let again =
        sp_insert_lead_again l (parameters_at l msg cid w) (parameters_at l msg cid v) w.now v.now
          w.tables (record { gateway = refl; transaction_id = refl; event = refl }) in
      let old : (outcome_at l msg cid v).is_new ≡ false =
        ap (λ (t : Tables). (sp_insert_lead l (parameters_at l msg cid v) v.now t).1.is_new) same
        ∙ again.1 in
      rw old

  -- A new lead whose k-th publish raises, after the procedure has committed, while all other calls
  -- work, is retried, and the retry publishes nothing: it finds the event known and returns. So the
  -- middleware returns normally, and only the messages before the k-th have been published.
  pub lost_distributions :
      (k : ℕ) (c m : String) (w : World)
      → (outcome_at l msg cid w).is_new ≡ true
      → k < 4
      → let (r, w') =
          consume_with_retry
            (handle_lead l msg cid)
            (record (quiet w) { faults = failing_after (suc k) c m }) in
        (r ≡ ok tt) × (w'.published ≡ w.published ++ take k (due l msg cid w))
  lost_distributions k c m w new h =
      let v = sleep 1000 (record (quiet (persisted l msg cid w)) {
        published = w.published ++ take k (due l msg cid w);
      }) in
      let second =
        retry_second (handle_lead l msg cid) (lib c m) tt
          (record (quiet w) { faults = failing_after (suc k) c m }) _ _ (first_try k c m w new h)
          refl (handle_lead-quiet l msg cid v) in
      (
        ap (λ r. r.0) second,
        ap (λ r. r.1.published) second
            ∙ rw (due-persisted w v refl, append-nil (w.published ++ take k (due l msg cid w))),
      )
