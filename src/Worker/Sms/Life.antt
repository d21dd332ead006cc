-- ===== src/Worker/Sms/Life.antt =====
-- An SMS that fails each time it is delivered: `handle_sms` of main.py, run once for each message that
-- the queue hands back.
use mathlib.Core.List.{append_assoc}
use gex_test_jonatha.Prelude.{
  ℕ, ◌+◌, ◌≤◌, ◌<◌, ◌≡◌, refl, ap, ◌∙◌, subst, String, Option, none, some, List, [], ◌∷◌, ◌++◌,
  find, arith,
}
use gex_test_jonatha.Exec.{Exn, ok}
use gex_test_jonatha.Common.Config.{AppSettings}
use gex_test_jonatha.Common.Models.{DistributionMessage}
use gex_test_jonatha.Common.Library.{Library}
use gex_test_jonatha.World.{World, DistributionStatus, Published, SmsAttempt}
use gex_test_jonatha.Worker.Procedure.{is_status_of}
use gex_test_jonatha.Worker.Sms.{
  backoff_ms, set_attempt, set_failed, set_next_retry, is_row_of, update_rows, handle_sms,
}
use gex_test_jonatha.Worker.Sms.Laws.{find-update_rows, dead_letter, next_message}
use gex_test_jonatha.Worker.Sms.Handle.{failure_of, attempting, handle_sms_dead, handle_sms_again}

module _ (l : Library) (s : AppSettings) (msg : DistributionMessage) (cid : String) where
  -- the message is delivered once for each attempt, and no call raises
  unfoldable pub redeliver : List SmsAttempt → World → World
  redeliver [] w = w
  redeliver (a ∷ rest) w = redeliver rest (handle_sms l s msg cid (attempting a w)).1

  -- the committed row of the message
  abbrev pub row_of : World → Option DistributionStatus
  row_of w = find (is_row_of l msg.order_id) w.tables.distribution_status

  -- One message has been published, and the row has this status and these attempts.
  pub record IsHandled (w w' : World) (m : Published) (status : String) (n : ℕ) : Type 0 where
    pub sent : w'.published ≡ w.published ++ m ∷ []
    pub row : DistributionStatus
    pub found : row_of w' ≡ some row
    pub same_status : row.status ≡ status
    pub counted : row.attempts ≡ n

  pub row_of-set_twice :
      (f g : DistributionStatus → DistributionStatus) (w : World) (row : DistributionStatus)
      → ((r : DistributionStatus) → is_row_of l msg.order_id (f r) ≡ is_row_of l msg.order_id r)
      → ((r : DistributionStatus) → is_row_of l msg.order_id (g r) ≡ is_row_of l msg.order_id r)
      → row_of w ≡ some row
      → find
          (is_row_of l msg.order_id)
          (update_rows l msg.order_id g (update_rows l msg.order_id f w.tables.distribution_status))
        ≡ some (g (f row))
  row_of-set_twice f g w row keeps keeps' h =
      find-update_rows l msg.order_id g _ keeps' (f row)
        (find-update_rows l msg.order_id f _ keeps row h)

  pub same_row :
      (o : Option String) (r r' : DistributionStatus)
      → r'.order_id ≡ r.order_id
      → r'.channel ≡ r.channel
      → is_row_of l o r' ≡ is_row_of l o r
  unfolding is_row_of is_status_of
  same_row none r r' h k = refl
  same_row (some id) r r' h k = rw (h, k)

  handle_sms_again-IsHandled :
      (a : SmsAttempt) (e : Exn) (w : World) (row : DistributionStatus) (delay_ms : ℕ)
      → failure_of a ≡ some e
      → row_of w ≡ some row
      → row.attempts + 1 ≤ s.distributor_max_retries
      → backoff_ms (row.attempts + 1) ≡ ok delay_ms
      → IsHandled w
          (handle_sms l s msg cid (attempting a w)).1
          (next_message l s msg cid e (row.attempts + 1) delay_ms)
          row.status
          (row.attempts + 1)
  handle_sms_again-IsHandled a e w row delay_ms fails found left b =
      let done = handle_sms_again l s msg cid a e w row delay_ms fails found left b in
      record {
        sent = ap (λ r. r.1.published) done;
        row = set_next_retry delay_ms w.now (set_attempt e w.now row);
        found =
            ap (λ r. row_of r.1) done
            ∙ row_of-set_twice (set_attempt e w.now) (set_next_retry delay_ms w.now) w row
                (λ r. same_row msg.order_id r _ refl refl)
                (λ r. same_row msg.order_id r _ refl refl) found;
        same_status = refl;
        counted = refl;
      }

  handle_sms_dead-IsHandled :
      (a : SmsAttempt) (e : Exn) (w : World) (row : DistributionStatus)
      → failure_of a ≡ some e
      → row_of w ≡ some row
      → s.distributor_max_retries < row.attempts + 1
      → IsHandled w
          (handle_sms l s msg cid (attempting a w)).1
          (dead_letter l s msg cid e)
          "failed"
          (row.attempts + 1)
  handle_sms_dead-IsHandled a e w row fails found over =
      let done = handle_sms_dead l s msg cid a e w row fails found over in
      record {
        sent = ap (λ r. r.1.published) done;
        row = set_failed w.now (set_attempt e w.now row);
        found =
            ap (λ r. row_of r.1) done
            ∙ row_of-set_twice (set_attempt e w.now) (set_failed w.now) w row
                (λ r. same_row msg.order_id r _ refl refl)
                (λ r. same_row msg.order_id r _ refl refl) found;
        same_status = refl;
        counted = refl;
      }

  -- the same steps from a row with `n` attempts
  again_at :
      (a : SmsAttempt) (e : Exn) (w : World) (row : DistributionStatus) (n delay_ms : ℕ)
      → failure_of a ≡ some e
      → row_of w ≡ some row
      → row.attempts ≡ n
      → n + 1 ≤ s.distributor_max_retries
      → backoff_ms (n + 1) ≡ ok delay_ms
      → IsHandled w
          (handle_sms l s msg cid (attempting a w)).1
          (next_message l s msg cid e (n + 1) delay_ms)
          row.status
          (n + 1)
  again_at a e w row n delay_ms fails found counted left b =
      subst
        (λ k.
          k + 1 ≤ s.distributor_max_retries
          → backoff_ms (k + 1) ≡ ok delay_ms
          → IsHandled w (handle_sms l s msg cid (attempting a w)).1
              (next_message l s msg cid e (k + 1) delay_ms) row.status (k + 1))
        counted (handle_sms_again-IsHandled a e w row delay_ms fails found) left b

  dead_at :
      (a : SmsAttempt) (e : Exn) (w : World) (row : DistributionStatus) (n : ℕ)
      → failure_of a ≡ some e
      → row_of w ≡ some row
      → row.attempts ≡ n
      → s.distributor_max_retries < n + 1
      → IsHandled w
          (handle_sms l s msg cid (attempting a w)).1
          (dead_letter l s msg cid e)
          "failed"
          (n + 1)
  dead_at a e w row n fails found counted over =
      subst
        (λ k.
          s.distributor_max_retries < k + 1
          → IsHandled w (handle_sms l s msg cid (attempting a w)).1 (dead_letter l s msg cid e)
              "failed" (k + 1))
        counted (handle_sms_dead-IsHandled a e w row fails found) over

  -- With three retries, a message whose row has no attempt yet and whose four deliveries all fail in
  -- ways that may be retried is published again with an expiration of 1, 4 and 16 seconds and then
  -- dead-lettered, and its row ends failed with four attempts, while no call raises.
  pub redeliver_failing :
      (a1 a2 a3 a4 : SmsAttempt) (e1 e2 e3 e4 : Exn) (w : World) (row : DistributionStatus)
      → failure_of a1 ≡ some e1
      → failure_of a2 ≡ some e2
      → failure_of a3 ≡ some e3
      → failure_of a4 ≡ some e4
      → row_of w ≡ some row
      → row.attempts ≡ 0
      → s.distributor_max_retries ≡ 3
      → let w' = redeliver (a1 ∷ a2 ∷ a3 ∷ a4 ∷ []) w in
        (w'.published
          ≡ w.published
            ++ next_message l s msg cid e1 1 1000
              ∷ next_message l s msg cid e2 2 4000
              ∷ next_message l s msg cid e3 3 16000
              ∷ dead_letter l s msg cid e4
              ∷ [])
        × (r : DistributionStatus) × (row_of w' ≡ some r)
        × (r.status ≡ "failed")
        × (r.attempts ≡ 4)
  unfolding redeliver
  redeliver_failing a1 a2 a3 a4 e1 e2 e3 e4 w row f1 f2 f3 f4 found fresh three =
      let within : 3 ≤ s.distributor_max_retries = omega (arith, three) in
      let over : s.distributor_max_retries < 4 = omega (arith, three) in
      let w1 = redeliver (a1 ∷ []) w in
      let w2 = redeliver (a1 ∷ a2 ∷ []) w in
      let w3 = redeliver (a1 ∷ a2 ∷ a3 ∷ []) w in
      let h1 = again_at a1 e1 w row 0 1000 f1 found fresh (omega (arith, within)) refl in
      let h2 =
        again_at a2 e2 w1 h1.row 1 4000 f2 h1.found h1.counted (omega (arith, within)) refl in
      let h3 = again_at a3 e3 w2 h2.row 2 16000 f3 h2.found h2.counted within refl in
      let h4 = dead_at a4 e4 w3 h3.row 3 f4 h3.found h3.counted over in
      (
        h4.sent ∙ rw (h3.sent, h2.sent, h1.sent, append_assoc, append_assoc, append_assoc),
        h4.row,
        h4.found,
        h4.same_status,
        h4.counted,
      )
