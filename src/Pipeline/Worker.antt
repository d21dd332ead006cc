-- ===== src/Pipeline/Worker.antt =====
-- What the handler of a lead and the middlewares keep, whatever MySQL and RabbitMQ do.
use mathlib.Core.List.{append-nil, append_assoc}
use gex_test_jonatha.Prelude.{
  ℕ, String, true, false, Option, none, some, List, [], ◌∷◌, Bool-cases, inl, inr, suc, Bool, ◌≡◌,
  refl, ◌++◌, take, if◌then◌else◌,
}
use gex_test_jonatha.Exec.{Exn, Result, ok, raise, Exec, pure, modify, continue, ◌>>=◌}
use gex_test_jonatha.Exec.Keeps.{Keeps, Keeps-bind, Keeps-then, Keeps-pure, Keeps-lift}
use gex_test_jonatha.Common.Config.{AppSettings, retry_backoffs_ms}
use gex_test_jonatha.Common.Models.{LeadReceivedMessage}
use gex_test_jonatha.Common.Library.{Library}
use gex_test_jonatha.World.{World, Published, Fault, dead, is_first}
use gex_test_jonatha.World.Keeps.{Property, At, Keeps-call, Keeps-send, Keeps-with_session}
use gex_test_jonatha.World.Calls.{send, with_fault}
use gex_test_jonatha.Receiver.Routes.Keeps.{IsApproved}
use gex_test_jonatha.Worker.Procedure.{Parameters, sp_insert_lead}
use gex_test_jonatha.Worker.Consumer.{
  broker_message, broker_publish, publish_each, dist_publishes, procedure_parameters,
  call_procedure, process_lead, handle_lead,
}
use gex_test_jonatha.Worker.Consumer.Laws.{messages, parameters_at}
use gex_test_jonatha.Worker.Retry.{is_no_retry, sleep, after_try, retry_loop, consume_with_retry}
use gex_test_jonatha.Worker.Dlq.{
  RabbitMessage, or_empty, fields_of, build_dlq_message, publish_dead, after_processed, dlq_route,
}
use gex_test_jonatha.Pipeline.{exception_of, consume}
use gex_test_jonatha.Pipeline.Closed.{IsInvariant}

module _ (l : Library) (L : LeadReceivedMessage → Type 0) (Q : Property)
    (inv : IsInvariant l L Q) where
  pub broker_publish-Keeps :
      (p : Published) → is_first p ≡ false → IsApproved p.body → Keeps (At Q) (broker_publish p)
  unfolding broker_publish
  broker_publish-Keeps p first a =
      Keeps-then _ _ (Keeps-call Q) (Keeps-send Q p (inv.sends p first a))

  -- What holds after any number of the messages that are left.
  abbrev Left : List Published → World → Type 0
  Left ms w = (k : ℕ) → Q w.tables w.session (w.published ++ take k ms)

  Left-tail :
      (m : Published) (ms : List Published) (w : World) → Left (m ∷ ms) w → Left ms (send m w)
  Left-tail m ms w h k = rw (append_assoc w.published (m ∷ []) (take k ms)) (h (suc k))

  At-of_Left : (ms : List Published) (w : World) → Left ms w → At Q w
  At-of_Left ms w h = rw (append-nil w.published) at (h 0)

  At-publish_next :
      (m : Published) (ms : List Published) (next : Exec World (Unit {0})) (fs : List Fault)
      (w : World)
      → Left (m ∷ ms) w
      → ((v : World) → Left ms v → At Q (next v).1)
      → At Q (continue (λ _. next) (continue (λ _. modify (send m)) (with_fault fs w))).1
  At-publish_next m ms next [] w h k = k (send m w) (Left-tail m ms w h)
  At-publish_next m ms next (none ∷ fs) w h k = k _ (Left-tail m ms w h)
  At-publish_next m ms next (some (c, e) ∷ fs) w h k = At-of_Left (m ∷ ms) w h

  At-publish_each :
      (msg : LeadReceivedMessage) (order_id cid : String) (qs : List (String × String)) (w : World)
      → Left (messages msg order_id cid qs) w
      → At Q (publish_each msg order_id cid qs w).1
  unfolding publish_each broker_publish
  At-publish_each msg order_id cid [] w h = At-of_Left [] w h
  At-publish_each msg order_id cid ((queue, channel) ∷ rest) w h =
      At-publish_next _ (messages msg order_id cid rest) (publish_each msg order_id cid rest)
        w.faults w h (At-publish_each msg order_id cid rest)

  module _ (msg : LeadReceivedMessage) (cid : String) (fits : L msg) where
    At-distributed :
        (is_new : Bool) (order_id : String) (w : World)
        → Left (if is_new then messages msg order_id cid dist_publishes else []) w
        → At Q ((if is_new then publish_each msg order_id cid dist_publishes else pure tt) w).1
    At-distributed true order_id w h = At-publish_each msg order_id cid dist_publishes w h
    At-distributed false order_id w h = At-of_Left [] w h

    call_procedure-Keeps :
        (p : Parameters)
        → p.event ≡ msg.event
        → Keeps (At Q) (do
          row ← call_procedure l msg cid p
          if row.is_new then publish_each msg row.order_id cid dist_publishes else pure tt)
    unfolding call_procedure
    call_procedure-Keeps p e = record {
      at = λ w h.
          let (t, row) = sp_insert_lead l p w.now w.tables in
          At-distributed row.is_new row.order_id (record w { tables = t; session = t })
            (λ k. inv.procedure p w.now msg cid k w.tables w.session w.published fits e h);
    }

    process_lead-Keeps : Keeps (At Q) (process_lead l msg cid)
    unfolding process_lead procedure_parameters
    process_lead-Keeps = record {
      at = λ w h.
          (Keeps-then _ _ (Keeps-call Q) (call_procedure-Keeps (parameters_at l msg cid w) refl)).at
            _ h;
    }

    pub handle_lead-Keeps : Keeps (At Q) (handle_lead l msg cid)
    unfolding handle_lead
    handle_lead-Keeps =
        Keeps-with_session Q inv.sessions (process_lead l msg cid) process_lead-Keeps

  At-after_try :
      {A : Type 0} (next : Exec World A) (r : Result A × World)
      → ((w : World) → At Q w → At Q (next w).1)
      → At Q r.1
      → At Q (after_try (λ w. next w) r).1
  unfolding after_try
  At-after_try next (ok a, w) k h = h
  At-after_try next (raise e, w) k h = elim (Bool-cases (is_no_retry e)) [
    | inl final ↦ rw final h
    | inr again ↦ rw again (k w h)
  ]

  retry_loop-Keeps :
      {A : Type 0} (ds : List ℕ) (m : Exec World A)
      → Keeps (At Q) m
      → Keeps (At Q) (retry_loop sleep ds m)
  unfolding retry_loop
  retry_loop-Keeps [] m k = k
  retry_loop-Keeps (d ∷ ds) m k = record {
    at = λ w h.
        At-after_try (λ v. retry_loop sleep ds m (sleep d v)) (m w)
          (λ v hv. (retry_loop-Keeps ds m k).at _ hv) (k.at w h);
  }

  publish_dead-Keeps :
      (raw : RabbitMessage) (e : Exn) (context : Result String) (route : String × String)
      → Keeps (At Q) (publish_dead l raw e context route)
  unfolding publish_dead
  publish_dead-Keeps raw e context (queue, exchange) =
      Keeps-bind _ _ (Keeps-lift (or_empty (l.loads_bytes raw.body))) λ payload.
        Keeps-bind _ _ (Keeps-lift (fields_of payload)) λ d.
          Keeps-bind _ _ (Keeps-lift (build_dlq_message l d e queue context)) λ msg.
            Keeps-then _ _ (broker_publish-Keeps (broker_message exchange queue (dead msg)) refl tt)
              (Keeps-pure (some false))

  after_processed-Keeps :
      (e : Option Exn) (raw : RabbitMessage) (context : Result String)
      → Keeps (At Q) (after_processed l e (some raw) true context)
  unfolding after_processed
  after_processed-Keeps none raw context = Keeps-pure _
  after_processed-Keeps (some e) raw context = routed (dlq_route raw.routing_key)
    where
      routed :
          (r : Option (String × String))
          → Keeps (At Q) (elim r [
            | none ↦ pure (some false)
            | some route ↦ publish_dead l raw e context route
          ])
      routed none = Keeps-pure _
      routed (some route) = publish_dead-Keeps raw e context route

  -- A handler inside the middlewares keeps what the handler keeps.
  pub At-consume :
      (s : AppSettings) (raw : RabbitMessage) (context : Result String)
      (handler : Exec World (Unit {0}))
      → Keeps (At Q) handler
      → (w : World) → At Q w
      → At Q (consume l s raw context handler w)
  unfolding consume consume_with_retry
  At-consume s raw context handler k w h =
      (after_processed-Keeps (exception_of (consume_with_retry handler w).0) raw context).at _
        ((retry_loop-Keeps retry_backoffs_ms handler k).at w h)
