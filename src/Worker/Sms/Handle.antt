-- ===== src/Worker/Sms/Handle.antt =====
-- `handle_sms` of main.py from the POST to the message's next queue.
use gex_test_jonatha.Prelude.{
  ℕ, ◌+◌, ◌≤◌, ◌<◌, ◌≡◌, refl, ◌∙◌, String, true, Option, none, some, [], ◌∷◌, ◌++◌, if◌then◌else◌,
  Bool-cases, inl, inr, ap,
}
use gex_test_jonatha.Prelude.Strings.{◌+++◌}
use gex_test_jonatha.Exec.{Exn, lib, transient, simulated, permanent, ok, raise}
use gex_test_jonatha.Common.Config.{AppSettings}
use gex_test_jonatha.Common.Models.{DistributionMessage}
use gex_test_jonatha.Common.Library.{Library}
use gex_test_jonatha.World.{
  World, DistributionStatus, SmsAttempt, simulated_failure, success, status_error, timeout, broken,
}
use gex_test_jonatha.World.Session.{finish, with_session, commit}
use gex_test_jonatha.Worker.Consumer.Laws.{quiet}
use gex_test_jonatha.Worker.Sms.{
  backoff_ms, is_permanent, set_mark_failed, set_delivered, set_failed, set_next_retry,
  put_statuses, update_rows, update, mark_failed, mark_delivered, conclude_sms, process_sms,
  schedule_retry_or_dlq, handle_sms,
}
use gex_test_jonatha.Worker.Sms.Laws.{
  dead_letter, next_message, row_in, set_tables, with_tables, schedule_retry_or_dlq_dead,
  schedule_retry_or_dlq_again,
}

-- The failure of an attempt that may be retried.
abbrev pub failure_of : SmsAttempt → Option Exn
failure_of simulated_failure = some (simulated "simulated sms provider error")
failure_of (success lag) = none
failure_of (status_error code m) =
    if is_permanent code then none else some (transient ("HTTPStatusError: " +++ m))
failure_of (timeout c m) = some (transient (c +++ ": " +++ m))
failure_of (broken c m) = none

-- The next attempt is `a` and no call raises.
abbrev pub attempting : SmsAttempt → World → World
attempting a w = record (quiet w) { sms_attempts = a ∷ w.sms_attempts }

-- The same world once the attempt has been made in a new session.
abbrev pub attempted : World → World
attempted w = record w { session = w.tables }

module _ (l : Library) (s : AppSettings) (msg : DistributionMessage) (cid : String) where
  next :
      {e e' : Exn}
      → e ≡ e'
      → (w : World)
      → finish (schedule_retry_or_dlq l s msg cid e (attempted w))
        ≡ finish (schedule_retry_or_dlq l s msg cid e' (attempted w))
  next same w = ap (λ e. finish (schedule_retry_or_dlq l s msg cid e (attempted w))) same

  -- A failure that may be retried goes to the scheduling, whatever the calls raise.
  pub handle_sms-failure :
      (a : SmsAttempt) (e : Exn) (w : World)
      → failure_of a ≡ some e
      → handle_sms l s msg cid (record w { sms_attempts = a ∷ w.sms_attempts })
        ≡ finish (schedule_retry_or_dlq l s msg cid e (attempted w))
  unfolding handle_sms process_sms conclude_sms with_session
  handle_sms-failure simulated_failure e w h =
      let same : simulated "simulated sms provider error" ≡ e = cc in next same w
  handle_sms-failure (success lag) e w h = cc
  handle_sms-failure (status_error code m) e w h = elim (Bool-cases (is_permanent code)) [
    | inl stop ↦ let none_left : none ≡ some e = rw stop at h in cc
    | inr retry ↦
        let found : some (transient ("HTTPStatusError: " +++ m)) ≡ some e = rw retry at h in
        let same : transient ("HTTPStatusError: " +++ m) ≡ e = cc in rw retry (next same w)
  ]
  handle_sms-failure (timeout c m) e w h =
      let same : transient (c +++ ": " +++ m) ≡ e = cc in next same w
  handle_sms-failure (broken c m) e w h = cc

  -- A delivery that fails in a way that may be retried, and whose row has used up its retries, is
  -- counted and marked failed, both committed, and one dead letter is published to
  -- `dist.dead.sms`, while no call raises; the handler returns.
  pub handle_sms_dead :
      (a : SmsAttempt) (e : Exn) (w : World) (row : DistributionStatus)
      → failure_of a ≡ some e
      → row_in l s msg cid e (attempted w) ≡ some row
      → s.distributor_max_retries < row.attempts + 1
      → handle_sms l s msg cid (attempting a w) ≡ (
        ok tt,
        record (quiet (
            with_tables l s msg cid e
              (set_tables l s msg cid e (set_failed w.now) (attempted w))
              (attempted w))) { published = w.published ++ dead_letter l s msg cid e ∷ [] },
      )
  unfolding with_session
  handle_sms_dead a e w row fails found over =
      handle_sms-failure a e (quiet w) fails
      ∙ ap finish (schedule_retry_or_dlq_dead l s msg cid e (attempted w) row found over)

  -- A delivery that fails in a way that may be retried, and whose row has retries left and a backoff
  -- for its next attempt, is counted, its row keeps the time of the next attempt, and the message is published once more to
  -- `dist.sms` with the attempt's number, the error's class and the backoff as its expiration,
  -- while no call raises; the handler returns.
  pub handle_sms_again :
      (a : SmsAttempt) (e : Exn) (w : World) (row : DistributionStatus) (delay_ms : ℕ)
      → failure_of a ≡ some e
      → row_in l s msg cid e (attempted w) ≡ some row
      → row.attempts + 1 ≤ s.distributor_max_retries
      → backoff_ms (row.attempts + 1) ≡ ok delay_ms
      → handle_sms l s msg cid (attempting a w) ≡ (
        ok tt,
        record (quiet (
            with_tables l s msg cid e
              (set_tables l s msg cid e (set_next_retry delay_ms w.now) (attempted w))
              (attempted w))) {
                published =
                    w.published ++ next_message l s msg cid e (row.attempts + 1) delay_ms ∷ [];
              },
      )
  unfolding with_session
  handle_sms_again a e w row delay_ms fails found left b =
      handle_sms-failure a e (quiet w) fails
      ∙ ap finish
          (schedule_retry_or_dlq_again l s msg cid e (attempted w) row delay_ms found left b)

  -- the tables when the row of the message has been changed by `f`
  abbrev pub with_row : (DistributionStatus → DistributionStatus) → World → World
  with_row f w =
      let t = put_statuses (update_rows l msg.order_id f w.tables.distribution_status) w.tables in
      record w { tables = t; session = t }

  -- A client error other than 408 and 429 marks the row failed, which stays committed although the
  -- handler raises a permanent failure, and nothing is published, while no call raises.
  pub handle_sms_permanent :
      (code : ℕ) (m : String) (w : World)
      → is_permanent code ≡ true
      → handle_sms l s msg cid (attempting (status_error code m) w) ≡ (
        raise (permanent ("HTTPStatusError: " +++ m)),
        quiet (with_row (set_mark_failed (lib "HTTPStatusError" m) w.now) w),
      )
  unfolding handle_sms process_sms conclude_sms mark_failed update with_session commit
  handle_sms_permanent code m w stop = rw stop

  -- A POST that succeeds marks the row delivered with the time that it took, while no call raises,
  -- and nothing is published.
  pub handle_sms_delivered :
      (lag : ℕ) (w : World)
      → handle_sms l s msg cid (attempting (success lag) w) ≡ (
        ok tt,
        quiet (with_row (set_delivered lag (w.now + lag)) (record w { now = w.now + lag })),
      )
  unfolding handle_sms process_sms conclude_sms mark_delivered update with_session commit
  handle_sms_delivered lag w = refl
