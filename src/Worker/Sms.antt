-- ===== src/Worker/Sms.antt =====
-- distributors.py: `process_sms`, and `handle_sms` of main.py with its retries through the queue.
-- Logging is left out.
pub mod Laws
pub mod Handle
pub mod Life
pub mod Faults
use gex_test_jonatha.Prelude.{
  ℕ, zero, suc, ◌+◌, ◌*◌, String, Bool, true, false, Option, none, some, List, [], ◌∷◌, ◌&&◌, ◌||◌,
  not, leb, ltb, eqb, find, get_elem?, if◌then◌else◌,
}
use gex_test_jonatha.Prelude.Strings.{◌+++◌, str_take}
use gex_test_jonatha.Exec.{
  Exn, simulated, transient, permanent, index_error, lib, class_name, describe, Result, ok, raise,
  Exec, pure, throw, lift, gets, modify, recover, catch, continue, ◌>>=◌, ◌>>◌,
}
use gex_test_jonatha.Json.{Json, dict}
use gex_test_jonatha.Common.Config.{
  AppSettings, channel_sms, queue_dist_sms, queue_dist_dlq_sms, retry_backoffs_ms,
  dist_status_delivered, dist_status_failed,
}
use gex_test_jonatha.Common.Models.{Time, DistributionMessage}
use gex_test_jonatha.Common.Library.{Library}
use gex_test_jonatha.World.{
  World, Tables, DistributionStatus, pos, SmsAttempt, simulated_failure, success, status_error,
  timeout, broken, distribution, dead, same_text,
}
use gex_test_jonatha.World.Calls.{call, send, write}
use gex_test_jonatha.World.Session.{commit, with_session}
use gex_test_jonatha.Worker.Procedure.{is_status_of}
use gex_test_jonatha.Worker.Consumer.{broker_message, broker_publish}

-- the outcome of the next SMS
abbrev pub next_attempt : List SmsAttempt → World → SmsAttempt × World
next_attempt [] w = (success 0, w)
next_attempt (a ∷ rest) w = (a, record w { sms_attempts = rest })

-- `400 <= code < 500 and code not in (408, 429)`
abbrev pub is_permanent : ℕ → Bool
is_permanent code = leb 400 code && (ltb code 500 && not (eqb code 408 || eqb code 429))

-- `CONSTANTS.retry_backoffs_ms[attempts - 1]`; index -1 is the last element
abbrev pub backoff_ms : ℕ → Result ℕ
backoff_ms zero = ok 16000
backoff_ms (suc i) = elim (get_elem? retry_backoffs_ms i) [
  | none ↦ raise (index_error "list index out of range")
  | some d ↦ ok d
]

-- The SET clauses of the UPDATE statements, at the database's time.
abbrev pub set_mark_failed : Exn → Time → DistributionStatus → DistributionStatus
set_mark_failed error now r = record r {
  status = "failed";
  attempts = 1;
  error_detail = some (str_take 1000 (describe error));
  updated_at = now;
}

abbrev pub set_delivered : ℕ → Time → DistributionStatus → DistributionStatus
set_delivered lag now r = record r {
  status = dist_status_delivered;
  delivered_at = some now;
  lag_db_to_channel_seconds = some (pos lag);
  attempts = 1;
  updated_at = now;
}

abbrev pub set_attempt : Exn → Time → DistributionStatus → DistributionStatus
set_attempt error now r = record r {
  attempts = r.attempts + 1;
  error_detail = some (str_take 1000 (describe error));
  updated_at = now;
}

abbrev pub set_failed : Time → DistributionStatus → DistributionStatus
set_failed now r = record r { status = "failed"; updated_at = now }

abbrev pub set_next_retry : ℕ → Time → DistributionStatus → DistributionStatus
set_next_retry delay_ms now r = record r {
  next_retry_at = some (now + delay_ms * 1000);
  updated_at = now;
}

abbrev pub put_statuses : List DistributionStatus → Tables → Tables
put_statuses rs t = record t { distribution_status = rs }

-- `f"{type(e).__name__}: {e}"` of an HTTPStatusError
abbrev pub status_error_text : String → String
status_error_text m = "HTTPStatusError: " +++ m

module _ (l : Library) where
  -- `WHERE order_id = :order_id AND channel = :channel`; nothing equals NULL
  unfoldable pub is_row_of : Option String → DistributionStatus → Bool
  is_row_of none r = false
  is_row_of (some order_id) r = is_status_of l order_id channel_sms r

  unfoldable pub update_rows :
      Option String
      → (DistributionStatus → DistributionStatus)
      → List DistributionStatus
      → List DistributionStatus
  update_rows order_id f [] = []
  update_rows order_id f (r ∷ rs) =
      (if is_row_of order_id r then f r else r) ∷ update_rows order_id f rs

  -- one UPDATE statement of `distribution_status`
  unfoldable pub update :
      DistributionMessage → (DistributionStatus → DistributionStatus) → Exec World (Unit {0})
  update msg f = do
    call
    modify (λ w. write (put_statuses (update_rows msg.order_id f w.session.distribution_status)) w)

  unfoldable pub mark_failed : DistributionMessage → Exn → Exec World (Unit {0})
  unfolding update
  mark_failed msg error = do now ← gets (λ w. w.now); update msg (set_mark_failed error now); commit

  -- what follows a POST that succeeds
  unfoldable pub mark_delivered : DistributionMessage → ℕ → Exec World (Unit {0})
  unfolding update
  mark_delivered msg lag = do
    modify (λ w. record w { now = w.now + lag })
    now ← gets (λ w. w.now)
    update msg (set_delivered lag now)

  unfoldable pub conclude_sms : DistributionMessage → SmsAttempt → Exec World (Unit {0})
  unfolding mark_failed mark_delivered
  conclude_sms msg simulated_failure = throw (simulated "simulated sms provider error")
  conclude_sms msg (success lag) = mark_delivered msg lag
  conclude_sms msg (status_error code m) =
      if is_permanent code
      then (do mark_failed msg (lib "HTTPStatusError" m); throw (permanent (status_error_text m)))
      else throw (transient (status_error_text m))
  conclude_sms msg (timeout c m) = throw (transient (c +++ ": " +++ m))
  conclude_sms msg (broken c m) = throw (lib c m)

  unfoldable pub process_sms : DistributionMessage → Exec World (Unit {0})
  unfolding conclude_sms
  process_sms msg w =
      let (attempt, w') = next_attempt w.sms_attempts w in conclude_sms msg attempt w'

  -- `int(row.attempts) if row else 1`
  abbrev pub attempts_of : Option DistributionStatus → ℕ
  attempts_of none = 1
  attempts_of (some r) = r.attempts

  unfoldable pub increment_attempts : DistributionMessage → Exn → Exec World ℕ
  unfolding update commit
  increment_attempts msg error = do
    now ← gets (λ w. w.now)
    update msg (set_attempt error now)
    commit
    call
    gets (λ w. attempts_of (find (is_row_of msg.order_id) w.session.distribution_status))

  -- the branch of `_schedule_retry_or_dlq` that gives up
  unfoldable pub give_up : AppSettings → DistributionMessage → String → Exn → Exec World (Unit {0})
  unfolding update commit broker_publish
  give_up s msg correlation_id error = do
    now ← gets (λ w. w.now)
    update msg (set_failed now)
    commit
    broker_publish (
        broker_message "dist" queue_dist_dlq_sms (
          dead (record {
            original_payload = dict (l.dump_distribution msg);
            error_reason =
                "max_retries_exceeded ("
                +++ l.show s.distributor_max_retries
                +++ "): "
                +++ describe error;
            gateway = msg.gateway;
            correlation_id = correlation_id;
            queue_origin = queue_dist_dlq_sms;
          })))

  -- the branch that publishes the message again
  unfoldable pub schedule : DistributionMessage → Exn → ℕ → Exec World (Unit {0})
  unfolding update commit broker_publish
  schedule msg error attempts = do
    delay_ms ← lift (backoff_ms attempts)
    now ← gets (λ w. w.now)
    update msg (set_next_retry delay_ms now)
    commit
    broker_publish (record {
      exchange = "dist";
      routing_key = queue_dist_sms;
      headers =
          ("x-attempts", l.show attempts) ∷ ("x-last-error", str_take 200 (class_name error)) ∷ [];
      correlation_id = none;
      expiration_ms = some delay_ms;
      body = distribution msg;
    })

  unfoldable pub schedule_retry_or_dlq :
      AppSettings → DistributionMessage → String → Exn → Exec World (Unit {0})
  unfolding increment_attempts give_up schedule
  schedule_retry_or_dlq s msg correlation_id error = do
    attempts ← increment_attempts msg error
    if ltb s.distributor_max_retries attempts
        then give_up s msg correlation_id error
        else schedule msg error attempts

  -- `except (TransientDistributorFailure, SimulatedDistributorFailure)`
  abbrev pub on_failure : AppSettings → DistributionMessage → String → Exn → Exec World (Unit {0})
  on_failure s msg correlation_id (transient m) =
      schedule_retry_or_dlq s msg correlation_id (transient m)
  on_failure s msg correlation_id (simulated m) =
      schedule_retry_or_dlq s msg correlation_id (simulated m)
  on_failure s msg correlation_id e = throw e

  unfoldable pub handle_sms : AppSettings → DistributionMessage → String → Exec World (Unit {0})
  unfolding process_sms schedule_retry_or_dlq with_session
  handle_sms s msg correlation_id =
      with_session (catch (process_sms msg) (on_failure s msg correlation_id))
