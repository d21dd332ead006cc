-- ===== src/Pipeline/Sms.antt =====
-- What the handler of an SMS keeps, whatever MySQL, RabbitMQ and the SMS provider do.
use gex_test_jonatha.Prelude.{◌≡◌, refl, false, ℕ, String, List, [], ◌∷◌, ltb}
use gex_test_jonatha.Exec.{gets, ◌>>=◌, ◌>>◌, Exn, simulated, transient, permanent, lib}
use gex_test_jonatha.Exec.Keeps.{
  Keeps, Keeps-bind, Keeps-then, Keeps-if, Keeps-throw, Keeps-lift, Keeps-catch, Keeps-gets,
}
use gex_test_jonatha.Common.Config.{AppSettings}
use gex_test_jonatha.Common.Models.{LeadReceivedMessage, DistributionMessage}
use gex_test_jonatha.Common.Library.{Library}
use gex_test_jonatha.World.{
  World, DistributionStatus, Published, is_first, SmsAttempt, simulated_failure, success,
  status_error, timeout, broken,
}
use gex_test_jonatha.World.Session.{commit}
use gex_test_jonatha.World.Keeps.{Property, At, Keeps-call, Keeps-commit, Keeps-with_session}
use gex_test_jonatha.Worker.Consumer.{broker_publish}
use gex_test_jonatha.Worker.Sms.{
  status_error_text, backoff_ms, next_attempt, is_permanent, set_next_retry, update, mark_failed,
  mark_delivered, conclude_sms, process_sms, increment_attempts, give_up, schedule,
  schedule_retry_or_dlq, on_failure, handle_sms,
}
use gex_test_jonatha.Receiver.Routes.Keeps.{IsApproved}
use gex_test_jonatha.Pipeline.Closed.{
  IsInvariant, IsSetClause, marked_failed, delivered, attempt, failed, next_retry,
}
use gex_test_jonatha.Pipeline.Worker.{broker_publish-Keeps}

module _ (l : Library) (L : LeadReceivedMessage → Type 0) (Q : Property)
    (inv : IsInvariant l L Q) where
  update-Keeps :
      (msg : DistributionMessage) (f : DistributionStatus → DistributionStatus)
      → IsSetClause l f
      → Keeps (At Q) (update l msg f)
  unfolding update
  update-Keeps msg f k =
      Keeps-then _ _ (Keeps-call Q) (record { at = λ w h. inv.statuses msg.order_id f k _ _ _ h })

  mark_failed-Keeps : (msg : DistributionMessage) (e : Exn) → Keeps (At Q) (mark_failed l msg e)
  unfolding mark_failed
  mark_failed-Keeps msg e = record {
    at = λ w h.
        (Keeps-then _ _ (update-Keeps msg _ (marked_failed e w.now))
            (Keeps-commit Q inv.sessions)).at
          w h;
  }

  mark_delivered-Keeps :
      (msg : DistributionMessage) (lag : ℕ) → Keeps (At Q) (mark_delivered l msg lag)
  unfolding mark_delivered
  mark_delivered-Keeps msg lag = record {
    at = λ w h. (update-Keeps msg _ (delivered lag _)).at _ h;
  }

  conclude_sms-Keeps :
      (msg : DistributionMessage) (a : SmsAttempt) → Keeps (At Q) (conclude_sms l msg a)
  unfolding conclude_sms
  conclude_sms-Keeps msg simulated_failure = Keeps-throw _
  conclude_sms-Keeps msg (success lag) = mark_delivered-Keeps msg lag
  conclude_sms-Keeps msg (status_error code m) =
      Keeps-if (is_permanent code) _ _
        (Keeps-then _ _ (mark_failed-Keeps msg (lib "HTTPStatusError" m))
          (Keeps-throw (permanent (status_error_text m))))
        (Keeps-throw (transient (status_error_text m)))
  conclude_sms-Keeps msg (timeout c m) = Keeps-throw _
  conclude_sms-Keeps msg (broken c m) = Keeps-throw _

  At-next_attempt : (as' : List SmsAttempt) (w : World) → At Q w → At Q (next_attempt as' w).1
  At-next_attempt [] w h = h
  At-next_attempt (a ∷ rest) w h = h

  process_sms-Keeps : (msg : DistributionMessage) → Keeps (At Q) (process_sms l msg)
  unfolding process_sms
  process_sms-Keeps msg = record {
    at = λ w h.
        (conclude_sms-Keeps msg (next_attempt w.sms_attempts w).0).at _
          (At-next_attempt w.sms_attempts w h);
  }

  increment_attempts-Keeps :
      (msg : DistributionMessage) (e : Exn) → Keeps (At Q) (increment_attempts l msg e)
  unfolding increment_attempts
  increment_attempts-Keeps msg e = record {
    at = λ w h.
        (Keeps-then _ _ (update-Keeps msg _ (attempt e w.now)) (
            Keeps-then _ _ (Keeps-commit Q inv.sessions)
              (Keeps-then _ _ (Keeps-call Q) (Keeps-gets _)))).at
          w h;
  }

  module _ (s : AppSettings) (msg : DistributionMessage) (cid : String) where
    give_up-Keeps : (e : Exn) → Keeps (At Q) (give_up l s msg cid e)
    unfolding give_up
    give_up-Keeps e = record {
      at = λ w h.
          (Keeps-then _ _ (update-Keeps msg _ (failed w.now)) (
              Keeps-then _ _ (Keeps-commit Q inv.sessions)
                (broker_publish-Keeps l L Q inv _ refl tt))).at
            w h;
    }

    schedule_delay-Keeps :
        (delay_ms : ℕ) (p : Published)
        → is_first p ≡ false
        → IsApproved p.body
        → Keeps (At Q) (do
          now ← gets (λ w. w.now)
          update l msg (set_next_retry delay_ms now)
          commit
          broker_publish p)
    schedule_delay-Keeps delay_ms p first a = record {
      at = λ w h.
          (Keeps-then _ _ (update-Keeps msg _ (next_retry delay_ms w.now)) (
              Keeps-then _ _ (Keeps-commit Q inv.sessions)
                (broker_publish-Keeps l L Q inv p first a))).at
            w h;
    }

    schedule-Keeps : (e : Exn) (attempts : ℕ) → Keeps (At Q) (schedule l msg e attempts)
    unfolding schedule
    schedule-Keeps e attempts =
        Keeps-bind _ _ (Keeps-lift (backoff_ms attempts))
          λ delay_ms. schedule_delay-Keeps delay_ms _ refl tt

    schedule_retry_or_dlq-Keeps : (e : Exn) → Keeps (At Q) (schedule_retry_or_dlq l s msg cid e)
    unfolding schedule_retry_or_dlq
    schedule_retry_or_dlq-Keeps e = Keeps-bind _ _ (increment_attempts-Keeps msg e) λ attempts.
        Keeps-if (ltb s.distributor_max_retries attempts) _ _ (give_up-Keeps e)
          (schedule-Keeps e attempts)

    on_failure-Keeps : (e : Exn) → Keeps (At Q) (on_failure l s msg cid e)
    on_failure-Keeps (transient m) = schedule_retry_or_dlq-Keeps (transient m)
    on_failure-Keeps (simulated m) = schedule_retry_or_dlq-Keeps (simulated m)
    on_failure-Keeps _ = Keeps-throw _

    pub handle_sms-Keeps : Keeps (At Q) (handle_sms l s msg cid)
    unfolding handle_sms
    handle_sms-Keeps = Keeps-with_session Q inv.sessions _ (
        Keeps-catch (process_sms l msg) (on_failure l s msg cid) (process_sms-Keeps msg)
          on_failure-Keeps)
