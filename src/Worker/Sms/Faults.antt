-- ===== src/Worker/Sms/Faults.antt =====
-- `handle_sms` of main.py inside the retry middleware, when MySQL or RabbitMQ raises on the way.
use gex_test_jonatha.Prelude.{
  ℕ, zero, suc, ◌+◌, ◌*◌, ◌≤◌, ◌<◌, ◌≡◌, refl, sym, subst, ◌∙◌, String, true, false, none, some,
  List, [], ◌∷◌, ◌++◌, length, All, ltb, arith,
}
use gex_test_jonatha.Exec.{Exn, lib, Result, ok, raise}
use gex_test_jonatha.Common.Config.{AppSettings, retry_backoffs_ms}
use gex_test_jonatha.Common.Models.{DistributionMessage}
use gex_test_jonatha.Common.Library.{Library}
use gex_test_jonatha.World.{World, Fault, DistributionStatus, SmsAttempt, success}
use gex_test_jonatha.World.Session.{with_session, commit}
use gex_test_jonatha.Worker.Consumer.{broker_publish}
use gex_test_jonatha.Worker.Consumer.Laws.{quiet}
use gex_test_jonatha.Worker.Retry.{sleep, retry_loop, consume_with_retry}
use gex_test_jonatha.Worker.Retry.Laws.{retry_second, retry_loop_raises}
use gex_test_jonatha.Worker.Sms.{
  backoff_ms, set_attempt, set_delivered, set_failed, set_next_retry, update, mark_delivered,
  conclude_sms, process_sms, increment_attempts, give_up, schedule, schedule_retry_or_dlq,
  handle_sms,
}
use gex_test_jonatha.Worker.Sms.Laws.{backoff_ms_iff, row_in-counted, set_tables, with_tables}
use gex_test_jonatha.Worker.Sms.Handle.{
  failure_of, attempting, attempted, with_row, handle_sms-failure, handle_sms_delivered,
}
use gex_test_jonatha.Worker.Sms.Life.{row_of, row_of-set_twice, same_row}

module _ (l : Library) (s : AppSettings) (msg : DistributionMessage) (cid : String) where
  -- the world after a delivery in the second try
  abbrev pub delivered_late : ℕ → ℕ → World → World
  delivered_late lag lag' w =
      let now = w.now + lag + 1000 * 1000 + lag' in
      quiet (with_row l s msg cid (set_delivered lag' now) (record w { now = now }))

  -- When the UPDATE after a successful POST raises, or the commit after it, and all other calls work,
  -- the middleware runs the handler again and the SMS is sent a second time: both POSTs are used up,
  -- the row is marked delivered, and nothing is published.
  pub sms_sent_twice :
      (c m : String) (lag lag' : ℕ) (w : World)
      → let start = attempting (success lag) (attempting (success lag') w) in
        let fault : List Fault = some (c, m) ∷ [] in
        (consume_with_retry (handle_sms l s msg cid) (record start { faults = fault })
          ≡ (ok tt, delivered_late lag lag' w))
        × (consume_with_retry (handle_sms l s msg cid) (record start { commit_faults = fault })
            ≡ (ok tt, delivered_late lag lag' w))
  unfolding handle_sms process_sms conclude_sms mark_delivered update with_session commit
  sms_sent_twice c m lag lag' w =
      let again = record w { session = w.tables; now = w.now + lag + 1000 * 1000 } in
      let second = handle_sms_delivered l s msg cid lag' again in
      (
        retry_second (handle_sms l s msg cid) (lib c m) tt _ _ _ refl refl second,
        retry_second (handle_sms l s msg cid) (lib c m) tt _ _ _ refl refl second,
      )

  -- The publish of each of so many tries raises, which is the fourth call of a try.
  abbrev pub no_publish : String → String → ℕ → List Fault → List Fault
  no_publish c m zero fs = fs
  no_publish c m (suc k) fs = none ∷ none ∷ none ∷ some (c, m) ∷ no_publish c m k fs

  -- the attempts and the faults of the tries to come
  abbrev pub unpublished : String → String → List SmsAttempt → World → World
  unpublished c m as' w = record w {
    sms_attempts = as' ++ w.sms_attempts;
    faults = no_publish c m (length as') w.faults;
    commit_faults = [];
  }

  -- a failure that may be retried
  abbrev pub IsRetriable : SmsAttempt → Type 0
  IsRetriable a = (e : Exn) × (failure_of a ≡ some e)

  module _ (c m : String) where
    -- A try whose SMS fails and whose publish raises: what it has counted stays committed.
    unpublished_again :
        (a : SmsAttempt) (e : Exn) (as' : List SmsAttempt) (w : World) (row : DistributionStatus)
        (delay_ms : ℕ)
        → failure_of a ≡ some e
        → row_of l s msg cid w ≡ some row
        → row.attempts + 1 ≤ s.distributor_max_retries
        → backoff_ms (row.attempts + 1) ≡ ok delay_ms
        → handle_sms l s msg cid (unpublished c m (a ∷ as') w) ≡ (
          raise (lib c m),
          unpublished c m as' (
              with_tables l s msg cid e
                (set_tables l s msg cid e (set_next_retry delay_ms w.now) (attempted w))
                w),
        )
    unfolding schedule_retry_or_dlq increment_attempts schedule update commit broker_publish
    unpublished_again a e as' w row delay_ms fails found left b =
        let test : ltb s.distributor_max_retries (row.attempts + 1) ≡ false = ground arith in
        handle_sms-failure l s msg cid a e _ fails
        ∙ rw (row_in-counted l s msg cid e (attempted w) row found, test, b) refl

    -- The same when the retries are used up.
    unpublished_dead :
        (a : SmsAttempt) (e : Exn) (as' : List SmsAttempt) (w : World) (row : DistributionStatus)
        → failure_of a ≡ some e
        → row_of l s msg cid w ≡ some row
        → s.distributor_max_retries < row.attempts + 1
        → handle_sms l s msg cid (unpublished c m (a ∷ as') w) ≡ (
          raise (lib c m),
          unpublished c m as' (
              with_tables l s msg cid e
                (set_tables l s msg cid e (set_failed w.now) (attempted w))
                w),
        )
    unfolding schedule_retry_or_dlq increment_attempts give_up update commit broker_publish
    unpublished_dead a e as' w row fails found over =
        let test : ltb s.distributor_max_retries (row.attempts + 1) ≡ true = ground arith in
        handle_sms-failure l s msg cid a e _ fails
        ∙ rw (row_in-counted l s msg cid e (attempted w) row found, test) refl

    -- The last exception is raised, nothing has been published, and the row is failed.
    abbrev IsLost : World → Result (Unit {0}) × World → Type 0
    IsLost w (r, w') =
        (r ≡ raise (lib c m))
        × (w'.published ≡ w.published)
        × (row : DistributionStatus) × (row_of l s msg cid w' ≡ some row)
        × (row.status ≡ "failed")
        × (row.attempts ≡ 4)

    row_of-set :
        (e : Exn) (g : DistributionStatus → DistributionStatus) (w : World)
        (row : DistributionStatus)
        → ((r : DistributionStatus) → (g r).order_id ≡ r.order_id)
        → ((r : DistributionStatus) → (g r).channel ≡ r.channel)
        → row_of l s msg cid w ≡ some row
        → row_of l s msg cid
            (with_tables l s msg cid e (set_tables l s msg cid e g (attempted w)) w)
          ≡ some (g (set_attempt e w.now row))
    row_of-set e g w row order_id channel found =
        row_of-set_twice l s msg cid (set_attempt e w.now) g w row
          (λ r. same_row l s msg cid msg.order_id r _ refl refl)
          (λ r. same_row l s msg cid msg.order_id r _ (order_id r) (channel r)) found

    module _ (three : s.distributor_max_retries ≡ 3) where
      unpublished_loop :
          (ds : List ℕ) (as' : List SmsAttempt) (w : World) (row : DistributionStatus)
          → length as' ≡ suc (length ds)
          → row.attempts + length as' ≡ 4
          → All IsRetriable as'
          → row_of l s msg cid w ≡ some row
          → IsLost w (retry_loop sleep ds (handle_sms l s msg cid) (unpublished c m as' w))
      unfolding retry_loop
      unpublished_loop ds [] w row same left fails found = absurd (omega arith)
      unpublished_loop [] (a ∷ []) w row same left ((e, fails), _) found =
          let done = unpublished_dead a e [] w row fails found (omega (arith, three, left)) in
          subst (IsLost w) (sym done) (
            refl,
            refl,
            set_failed w.now (set_attempt e w.now row),
            row_of-set e (set_failed w.now) w row (λ r. refl) (λ r. refl) found,
            refl,
            omega (arith, left),
          )
      unpublished_loop [] (a ∷ b ∷ as') w row same left fails found = absurd (omega (arith, same))
      unpublished_loop (d ∷ ds) (a ∷ as') w row same left ((e, fails), rest) found =
          let (delay_ms, b) = (backoff_ms_iff (row.attempts + 1)).1 (omega (arith, left, same)) in
          let v =
            with_tables l s msg cid e
              (set_tables l s msg cid e (set_next_retry delay_ms w.now) (attempted w)) w in
          let first =
            unpublished_again a e as' w row delay_ms fails found (omega (arith, three, left, same))
              b in
          let step =
            retry_loop_raises sleep (handle_sms l s msg cid) d ds (lib c m) _ _ first refl in
          subst (IsLost w) (sym step) (
            unpublished_loop ds as' (sleep d v)
              (set_next_retry delay_ms w.now (set_attempt e w.now row)) (omega (arith, same))
              (omega (arith, left)) rest
              (row_of-set e (set_next_retry delay_ms w.now) w row (λ r. refl) (λ r. refl) found))

    -- With three retries, one delivery of a message whose row has no attempt yet, whose four tries
    -- fail in ways that may be retried and whose four publishes all raise, ends in the publish's
    -- exception: nothing has been published, and the row is failed with four attempts, all counted in
    -- that delivery.
    pub sms_retries_lost :
        (as' : List SmsAttempt) (w : World) (row : DistributionStatus)
        → s.distributor_max_retries ≡ 3
        → length as' ≡ 4
        → All IsRetriable as'
        → row_of l s msg cid w ≡ some row
        → row.attempts ≡ 0
        → let (r, w') = consume_with_retry (handle_sms l s msg cid) (unpublished c m as' w) in
          (r ≡ raise (lib c m))
          × (w'.published ≡ w.published)
          × (row' : DistributionStatus) × (row_of l s msg cid w' ≡ some row')
          × (row'.status ≡ "failed")
          × (row'.attempts ≡ 4)
    unfolding consume_with_retry
    sms_retries_lost as' w row three four fails found fresh =
        unpublished_loop three retry_backoffs_ms as' w row four (omega (arith, four, fresh)) fails
          found
