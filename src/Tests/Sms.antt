-- ===== src/Tests/Sms.antt =====
-- The theorems on the SMS distributor, applied.
use gex_test_jonatha.Prelude.{ℕ, ◌≡◌, ◌↔◌, refl, some, [], ◌∷◌, ◌++◌, ◌≤◌, arith}
use gex_test_jonatha.Exec.{ok, raise, lib, transient, permanent}
use gex_test_jonatha.Exec.{Exn}
use gex_test_jonatha.Common.Config.{default_settings}
use gex_test_jonatha.Prelude.{List}
use gex_test_jonatha.World.{status_error, success, simulated_failure, timeout, SmsAttempt, Fault}
use gex_test_jonatha.Worker.Retry.{consume_with_retry}
use gex_test_jonatha.Worker.Sms.Faults.{
  delivered_late, sms_sent_twice, unpublished, sms_retries_lost,
}
use gex_test_jonatha.Worker.Procedure.{is_status_of}
use gex_test_jonatha.Worker.Consumer.Laws.{quiet}
use gex_test_jonatha.World.{DistributionStatus}
use gex_test_jonatha.Worker.Sms.{
  backoff_ms, set_failed, set_next_retry, set_mark_failed, handle_sms, is_row_of,
}
use gex_test_jonatha.Worker.Sms.Laws.{
  backoff_ms_iff, dead_letter, next_message, set_tables, with_tables,
}
use gex_test_jonatha.Worker.Sms.Handle.{
  attempting, attempted, handle_sms_dead, handle_sms_again, handle_sms_permanent, with_row,
}
use gex_test_jonatha.Worker.Sms.Life.{redeliver, redeliver_failing, row_of}
use gex_test_jonatha.Tests.Data.{library, sms_message, sms_row, sms_world}

backoff_ms_iff_example : ((d : ℕ) × (backoff_ms 4 ≡ ok d)) ↔ (4 ≤ 3)
backoff_ms_iff_example = backoff_ms_iff 4

handle_sms_dead_example :
    handle_sms library default_settings sms_message "c1"
      (attempting (status_error 503 "Unavailable") (sms_world 3))
    ≡ (
      ok tt,
      record (quiet (
          with_tables library default_settings sms_message "c1"
            (transient "HTTPStatusError: Unavailable")
            (set_tables library default_settings sms_message "c1"
              (transient "HTTPStatusError: Unavailable")
              (set_failed 100)
              (attempted (sms_world 3)))
            (attempted (sms_world 3)))) {
              published =
                  []
                  ++ dead_letter library default_settings sms_message "c1"
                      (transient "HTTPStatusError: Unavailable")
                    ∷ [];
            },
    )
unfolding is_row_of is_status_of
handle_sms_dead_example =
    handle_sms_dead library default_settings sms_message "c1" (status_error 503 "Unavailable")
      (transient "HTTPStatusError: Unavailable") (sms_world 3) (sms_row 3) refl refl (omega arith)

handle_sms_again_example :
    handle_sms library default_settings sms_message "c1"
      (attempting (status_error 503 "Unavailable") (sms_world 1))
    ≡ (
      ok tt,
      record (quiet (
          with_tables library default_settings sms_message "c1"
            (transient "HTTPStatusError: Unavailable")
            (set_tables library default_settings sms_message "c1"
              (transient "HTTPStatusError: Unavailable")
              (set_next_retry 4000 100)
              (attempted (sms_world 1)))
            (attempted (sms_world 1)))) {
              published =
                  []
                  ++ next_message library default_settings sms_message "c1"
                      (transient "HTTPStatusError: Unavailable")
                      2
                      4000
                    ∷ [];
            },
    )
unfolding is_row_of is_status_of
handle_sms_again_example =
    handle_sms_again library default_settings sms_message "c1" (status_error 503 "Unavailable")
      (transient "HTTPStatusError: Unavailable") (sms_world 1) (sms_row 1) 4000 refl refl
      (omega arith) refl

handle_sms_permanent_example :
    handle_sms library default_settings sms_message "c1"
      (attempting (status_error 404 "Not Found") (sms_world 0))
    ≡ (
      raise (permanent "HTTPStatusError: Not Found"),
      quiet (
          with_row library default_settings sms_message "c1"
            (set_mark_failed (lib "HTTPStatusError" "Not Found") 100)
            (sms_world 0)),
    )
handle_sms_permanent_example =
    handle_sms_permanent library default_settings sms_message "c1" 404 "Not Found" (sms_world 0)
      refl

abbrev unavailable_error : Exn
unavailable_error = transient "HTTPStatusError: Unavailable"

redeliver_failing_example :
    let w' =
      redeliver library default_settings sms_message "c1"
        (status_error 503 "Unavailable"
          ∷ status_error 503 "Unavailable"
          ∷ status_error 429 "Too Many"
          ∷ status_error 503 "Unavailable"
          ∷ [])
        (sms_world 0) in
    (w'.published
      ≡ []
        ++ next_message library default_settings sms_message "c1" unavailable_error 1 1000
          ∷ next_message library default_settings sms_message "c1" unavailable_error 2 4000
          ∷ next_message library default_settings sms_message "c1"
              (transient "HTTPStatusError: Too Many")
              3
              16000
          ∷ dead_letter library default_settings sms_message "c1" unavailable_error
          ∷ [])
    × (r : DistributionStatus) × (row_of library default_settings sms_message "c1" w' ≡ some r)
    × (r.status ≡ "failed")
    × (r.attempts ≡ 4)
unfolding is_row_of is_status_of
redeliver_failing_example =
    redeliver_failing library default_settings sms_message "c1" (status_error 503 "Unavailable")
      (status_error 503 "Unavailable") (status_error 429 "Too Many")
      (status_error 503 "Unavailable") unavailable_error unavailable_error
      (transient "HTTPStatusError: Too Many") unavailable_error (sms_world 0) (sms_row 0) refl refl
      refl refl refl refl refl

sms_sent_twice_example :
    let start = attempting (success 7) (attempting (success 9) (sms_world 0)) in
    let fault : List Fault = some ("OperationalError", "gone") ∷ [] in
    (consume_with_retry
        (handle_sms library default_settings sms_message "c1")
        (record start { faults = fault })
      ≡ (ok tt, delivered_late library default_settings sms_message "c1" 7 9 (sms_world 0)))
    × (consume_with_retry
          (handle_sms library default_settings sms_message "c1")
          (record start { commit_faults = fault })
        ≡ (ok tt, delivered_late library default_settings sms_message "c1" 7 9 (sms_world 0)))
sms_sent_twice_example =
    sms_sent_twice library default_settings sms_message "c1" "OperationalError" "gone" 7 9
      (sms_world 0)

abbrev refused : List SmsAttempt
refused =
    status_error 503 "Unavailable"
    ∷ simulated_failure
    ∷ timeout "ReadTimeout" ""
    ∷ status_error 429 "Too Many"
    ∷ []

sms_retries_lost_example :
    let (r, w') = consume_with_retry (handle_sms library default_settings sms_message "c1") (
      unpublished library default_settings sms_message "c1" "AMQPError" "closed" refused
        (sms_world 0)) in
    (r ≡ raise (lib "AMQPError" "closed"))
    × (w'.published ≡ [])
    × (row : DistributionStatus) × (row_of library default_settings sms_message "c1" w' ≡ some row)
    × (row.status ≡ "failed")
    × (row.attempts ≡ 4)
unfolding is_row_of is_status_of
sms_retries_lost_example =
    sms_retries_lost library default_settings sms_message "c1" "AMQPError" "closed" refused
      (sms_world 0) (sms_row 0) refl refl ((_, refl), ((_, refl), ((_, refl), ((_, refl), tt))))
      refl refl
