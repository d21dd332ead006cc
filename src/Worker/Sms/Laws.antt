-- ===== src/Worker/Sms/Laws.antt =====
-- The retries of an SMS through its queue: main.py of the worker.
use gex_test_jonatha.Prelude.{
  ℕ, zero, suc, ◌+◌, ◌≤◌, ◌<◌, ◌≡◌, ◌↔◌, refl, ap, String, true, false, Option, none, some, List,
  [], ◌∷◌, ◌++◌, find, ltb, arith, Bool-cases, inl, inr,
}
use gex_test_jonatha.Prelude.Strings.{◌+++◌, str_take}
use gex_test_jonatha.Exec.{Exn, describe, class_name, ok}
use gex_test_jonatha.Json.{dict}
use gex_test_jonatha.Common.Config.{AppSettings, queue_dist_sms, queue_dist_dlq_sms}
use gex_test_jonatha.Common.Models.{Time, DistributionMessage}
use gex_test_jonatha.Common.Library.{Library}
use gex_test_jonatha.World.{World, Tables, DistributionStatus, Published, distribution, dead}
use gex_test_jonatha.World.Session.{commit}
use gex_test_jonatha.Worker.Procedure.{is_status_of}
use gex_test_jonatha.Worker.Consumer.{broker_message, broker_publish}
use gex_test_jonatha.Worker.Consumer.Laws.{quiet}
use gex_test_jonatha.Worker.Sms.{
  backoff_ms, set_attempt, set_failed, set_next_retry, is_row_of, update_rows, update, put_statuses,
  increment_attempts, give_up, schedule, schedule_retry_or_dlq,
}

-- The backoff of an attempt exists exactly for the first three.
pub backoff_ms_iff : (attempts : ℕ) → ((d : ℕ) × (backoff_ms attempts ≡ ok d)) ↔ (attempts ≤ 3)
backoff_ms_iff zero = (λ h. omega arith, λ h. (16000, refl))
backoff_ms_iff (suc zero) = (λ h. omega arith, λ h. (1000, refl))
backoff_ms_iff (suc (suc zero)) = (λ h. omega arith, λ h. (4000, refl))
backoff_ms_iff (suc (suc (suc zero))) = (λ h. omega arith, λ h. (16000, refl))
backoff_ms_iff (suc (suc (suc (suc n)))) = (λ h. cc (h.1), λ h. absurd (omega arith))

module _ (l : Library) where
  -- an UPDATE that leaves the key of its rows alone is seen at the row that is found
  pub find-update_rows :
      (o : Option String) (f : DistributionStatus → DistributionStatus)
      (rs : List DistributionStatus)
      → ((r : DistributionStatus) → is_row_of l o (f r) ≡ is_row_of l o r)
      → (row : DistributionStatus) → find (is_row_of l o) rs ≡ some row
      → find (is_row_of l o) (update_rows l o f rs) ≡ some (f row)
  unfolding update_rows
  find-update_rows o f [] k row h = cc
  find-update_rows o f (r ∷ rs) k row h = elim (Bool-cases (is_row_of l o r)) [
    | inl here ↦
        let found : some r ≡ some row = rw here at h in
        let same : r ≡ row = cc in
        rw (here, k r, here) (ap (λ (x : DistributionStatus). some (f x)) same)
    | inr there ↦ rw (there, there) (find-update_rows o f rs k row (rw there at h))
  ]

  module _ (s : AppSettings) (msg : DistributionMessage) (cid : String) (e : Exn) where
    -- the row after the failure is counted
    abbrev counted : Time → DistributionStatus → DistributionStatus
    counted now row = set_attempt e now row

    is_row_of-set :
        (o : Option String) (r : DistributionStatus) (now : Time)
        → is_row_of l o (set_attempt e now r) ≡ is_row_of l o r
    unfolding is_row_of is_status_of
    is_row_of-set none r now = refl
    is_row_of-set (some id) r now = refl

    -- what is published when the retries are used up
    abbrev pub dead_letter : Published
    dead_letter = broker_message "dist" queue_dist_dlq_sms (
        dead (record {
          original_payload = dict (l.dump_distribution msg);
          error_reason =
              "max_retries_exceeded ("
              +++ l.show s.distributor_max_retries
              +++ "): "
              +++ describe e;
          gateway = msg.gateway;
          correlation_id = cid;
          queue_origin = queue_dist_dlq_sms;
        }))

    -- what is published for the next attempt
    abbrev pub next_message : ℕ → ℕ → Published
    next_message attempts delay_ms = record {
      exchange = "dist";
      routing_key = queue_dist_sms;
      headers =
          ("x-attempts", l.show attempts) ∷ ("x-last-error", str_take 200 (class_name e)) ∷ [];
      correlation_id = none;
      expiration_ms = some delay_ms;
      body = distribution msg;
    }

    -- the row of the message, as the session sees it
    abbrev pub row_in : World → Option DistributionStatus
    row_in w = find (is_row_of l msg.order_id) w.session.distribution_status

    -- the tables with the failure counted, and then with what `f` sets
    abbrev pub counted_tables : World → Tables
    counted_tables w =
        put_statuses
          (update_rows l msg.order_id (set_attempt e w.now) w.session.distribution_status) w.session

    abbrev pub set_tables : (DistributionStatus → DistributionStatus) → World → Tables
    set_tables f w =
        put_statuses (update_rows l msg.order_id f (counted_tables w).distribution_status)
          (counted_tables w)

    abbrev pub with_tables : Tables → World → World
    with_tables t w = record w { tables = t; session = t }

    pub row_in-counted :
        (w : World) (row : DistributionStatus)
        → row_in w ≡ some row
        → row_in (with_tables (counted_tables w) w) ≡ some (set_attempt e w.now row)
    row_in-counted w row h =
        find-update_rows msg.order_id (set_attempt e w.now) w.session.distribution_status
          (λ r. is_row_of-set msg.order_id r w.now) row h

    increment_attempts-quiet :
        (w : World) (row : DistributionStatus)
        → row_in w ≡ some row
        → increment_attempts l msg e (quiet w)
          ≡ (ok (row.attempts + 1), quiet (with_tables (counted_tables w) w))
    unfolding increment_attempts update commit
    increment_attempts-quiet w row h = rw (row_in-counted w row h)

    -- A failed delivery whose row has used up its retries is counted, its row becomes failed, and
    -- one dead letter is published to `dist.dead.sms`, while no call raises.
    pub schedule_retry_or_dlq_dead :
        (w : World) (row : DistributionStatus)
        → row_in w ≡ some row
        → s.distributor_max_retries < row.attempts + 1
        → schedule_retry_or_dlq l s msg cid e (quiet w) ≡ (
          ok tt,
          record (quiet (with_tables (set_tables (set_failed w.now) w) w)) {
            published = w.published ++ dead_letter ∷ [];
          },
        )
    unfolding schedule_retry_or_dlq give_up update commit broker_publish
    schedule_retry_or_dlq_dead w row h over =
        let test : ltb s.distributor_max_retries (row.attempts + 1) ≡ true = ground arith in
        rw (row_in-counted w row h, test)

    -- A failed delivery that may be retried is counted, its row keeps the time of the next attempt,
    -- and the message is published once more to `dist.sms` with the attempt's number, the error and
    -- the backoff as its expiration, while no call raises.
    pub schedule_retry_or_dlq_again :
        (w : World) (row : DistributionStatus) (delay_ms : ℕ)
        → row_in w ≡ some row
        → row.attempts + 1 ≤ s.distributor_max_retries
        → backoff_ms (row.attempts + 1) ≡ ok delay_ms
        → schedule_retry_or_dlq l s msg cid e (quiet w) ≡ (
          ok tt,
          record (quiet (with_tables (set_tables (set_next_retry delay_ms w.now) w) w)) {
            published = w.published ++ next_message (row.attempts + 1) delay_ms ∷ [];
          },
        )
    unfolding schedule_retry_or_dlq schedule update commit broker_publish
    schedule_retry_or_dlq_again w row delay_ms h le b =
        let test : ltb s.distributor_max_retries (row.attempts + 1) ≡ false = ground arith in
        rw (row_in-counted w row h, test, b)
