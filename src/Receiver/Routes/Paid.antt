-- ===== src/Receiver/Routes/Paid.antt =====
-- A webhook of routes.py sends a lead only for a row that it adds to `processed_events`.
use gex_test_jonatha.Prelude.{
  any, ℕ, ◌+◌, ◌≤◌, ◌≡◌, refl, ◌∙◌, String, Bool, true, false, [], ◌&&◌, arith, if◌then◌else◌,
  Bool-cases, inl, inr,
}
use gex_test_jonatha.Prelude.Strings.{◌+++◌}
use gex_test_jonatha.Exec.{
  Exec, Exn, Result, ok, raise, http, continue, recover, catch, throw, pure, ◌>>◌,
}
use gex_test_jonatha.Json.{Json}
use gex_test_jonatha.Common.Config.{
  AppSettings, is_valid_gateway, status_accepted, queue_lead_received,
}
use gex_test_jonatha.Common.Models.{WebhookPayload}
use gex_test_jonatha.Common.Library.{Library}
use gex_test_jonatha.World.{World, lead, same_text}
use gex_test_jonatha.World.Calls.{new_uuid7}
use gex_test_jonatha.Receiver.Db.{has_key, check_idempotency}
use gex_test_jonatha.Receiver.Db.Laws.{rows_of-counted, is_carrier, upsert_unique, event_row}
use gex_test_jonatha.Receiver.Publisher.{publish, publish_lead_received}
use gex_test_jonatha.Receiver.Routes.{
  Request, Response, Verdict, read_body, examine, decrypt_failed, schema_failed, accepted, broken,
  is_approved, fail_and_return, route, duplicate, accept, act, unavailable, insert_and_return,
  plain_result, receive_webhook, lead_message,
}
use gex_test_jonatha.Receiver.Routes.Effects.{
  sent, seen, IsPaid, publish-IsSend, IsSend-continue, IsQuiet, IsQuiet-pure, IsQuiet-bind, IsOwing,
  IsOwing-quiet, IsOwing-bind, insert_raw_payload-IsQuiet, publish_dlq-IsQuiet,
}

module _ (l : Library) (g t e : String) where
  module _ (s : AppSettings) (req : Request) where
    fail_and_return-IsQuiet :
        (a b : Json) (status reason : String) (c : Json) (q : String)
        → IsQuiet l g t e (fail_and_return l s req a b status reason c q)
    unfolding fail_and_return
    fail_and_return-IsQuiet a b status reason c q =
        IsQuiet-bind l g t e _ _ (insert_raw_payload-IsQuiet l g t e _ _ _ _ _ _ _ _) λ _.
          IsQuiet-bind l g t e _ _ (IsQuiet-pure l g t e _) λ m.
            IsQuiet-bind l g t e _ _ (publish_dlq-IsQuiet l g t e m q) λ _. IsQuiet-pure l g t e _

    insert_and_return-IsQuiet :
        (a b : Json) (status : String) → IsQuiet l g t e (insert_and_return l s req a b status)
    unfolding insert_and_return
    insert_and_return-IsQuiet a b status = insert_raw_payload-IsQuiet l g t e _ _ _ _ _ _ _ _

    duplicate-IsQuiet : (a b : Json) → IsQuiet l g t e (duplicate l s req a b)
    unfolding duplicate
    duplicate-IsQuiet a b =
        IsQuiet-bind l g t e _ _ (insert_and_return-IsQuiet a b _) λ _. IsQuiet-pure l g t e _

    -- one if the webhook has the key
    abbrev owed : WebhookPayload → ℕ
    owed p =
        if same_text l req.gateway g && (same_text l p.transaction_id t && same_text l p.event e)
        then 1
        else 0

    new_uuid7-IsQuiet : IsQuiet l g t e (new_uuid7 l)
    new_uuid7-IsQuiet = record { at = λ w. ground arith }

    publish_lead-IsOwing :
        (p : WebhookPayload) (event_id status : String) (w : World)
        → IsOwing l g t e (owed p) w (
            (do
              publish_lead_received (lead_message l s req p event_id)
              pure (plain_result l s req status))
              w)
    unfolding publish_lead_received lead_message
    publish_lead-IsOwing p event_id status w =
        let m = lead_message l s req p event_id in
        let (r, w') =
          publish w.publisher.exchange_lead "lead" (lead m) m.correlation_id queue_lead_received []
            w in
        IsSend-continue l g t e (lead m) w r w' (plain_result l s req status) (
          publish-IsSend l g t e w.publisher.exchange_lead "lead" (lead m) m.correlation_id
            queue_lead_received [] w)

    route-IsOwing :
        (a b : Json) (p : WebhookPayload) (w : World)
        → IsOwing l g t e (owed p) w (route l s req a b p w)
    unfolding route
    route-IsOwing a b p w = elim (Bool-cases (is_approved p)) [
      | inl approved ↦ rw approved (
          IsOwing-bind l g t e (owed p) _ _ w (insert_and_return-IsQuiet a b _) λ _ v.
            IsOwing-bind l g t e (owed p) _ _ v new_uuid7-IsQuiet
              λ event_id v'. publish_lead-IsOwing p event_id status_accepted v')
      | inr other ↦ rw other (
          IsOwing-quiet l g t e _ (owed p) w (
            IsQuiet-bind l g t e _ _ (insert_and_return-IsQuiet a b _) λ _. IsQuiet-pure l g t e _))
    ]

    -- No row of the key that the session sees has the request's correlation id.
    abbrev pub IsUnused : World → Type 0
    IsUnused w = any (is_carrier l g t e req.correlation_id) w.session.processed_events ≡ false

    -- A check that answers true has added a row of the webhook's key, and no other answer has.
    record IsCheck (p : WebhookPayload) (w : World) (r : Result Bool × World) : Type 0 where
      same_sent : sent l g t e r.1 ≡ sent l g t e w
      new : r.0 ≡ ok true → seen l g t e r.1 ≡ seen l g t e w + owed p
      old : r.0 ≡ ok false → seen l g t e r.1 ≡ seen l g t e w
      raised : (x : Exn) → r.0 ≡ raise x → seen l g t e r.1 ≡ seen l g t e w
      unique : seen l g t e w ≤ 1 → seen l g t e r.1 ≤ 1
      same_tables : r.1.tables ≡ w.tables
      same_commits : r.1.commit_faults ≡ w.commit_faults

    check_idempotency-IsCheck :
        (p : WebhookPayload) (w : World)
        → IsUnused w
        → IsCheck p w
            (check_idempotency l req.gateway p.transaction_id p.event req.correlation_id w)
    unfolding check_idempotency has_key
    check_idempotency-IsCheck p w u =
        let row = event_row l req.gateway p.transaction_id p.event req.correlation_id w in
        let rows = w.session.processed_events in
        record {
          same_sent = ground arith;
          new = λ h. ground (arith, rows_of-counted l g t e row rows u);
          old = λ h. ground (arith, rows_of-counted l g t e row rows u);
          raised = λ x h. ground arith;
          unique = λ h. ground (arith, upsert_unique l g t e row rows);
          same_tables = ground arith;
          same_commits = ground arith;
        }

    accept-continue :
        (a b : Json) (p : WebhookPayload) (w : World) (r : Result Bool) (w' : World)
        → IsCheck p w (r, w')
        → IsPaid l g t e w (
            continue
              (λ is_new. if is_new then route l s req a b p else duplicate l s req a b)
              (r, w'))
    accept-continue a b p w (ok true) w' c =
        let o = route-IsOwing a b p w' in
        record {
          paid = omega (arith, c.same_sent, c.new refl, o.at_most, o.same_seen);
          unique = λ h. omega (arith, c.unique h, o.same_seen);
          raised = λ x h. omega (arith, o.raised x h, c.same_sent);
          same_tables = o.same_tables ∙ c.same_tables;
          same_commits = o.same_commits ∙ c.same_commits;
        }
    accept-continue a b p w (ok false) w' c =
        let q = (duplicate-IsQuiet a b).at w' in
        record {
          paid = omega (arith, c.same_sent, c.old refl, q.same_sent, q.same_seen);
          unique = λ h. omega (arith, c.unique h, q.same_seen);
          raised = λ x h. omega (arith, q.same_sent, c.same_sent);
          same_tables = q.same_tables ∙ c.same_tables;
          same_commits = q.same_commits ∙ c.same_commits;
        }
    accept-continue a b p w (raise x) w' c = record {
      paid = omega (arith, c.same_sent, c.raised x refl);
      unique = c.unique;
      raised = λ y h. omega (arith, c.same_sent);
      same_tables = c.same_tables;
      same_commits = c.same_commits;
    }

    IsPaid-quiet :
        {A : Type 0} (m : Exec World A) (w : World) → IsQuiet l g t e m → IsPaid l g t e w (m w)
    IsPaid-quiet m w h =
        let q = h.at w in
        record {
          paid = omega (arith, q.same_sent, q.same_seen);
          unique = λ k. omega (arith, q.same_seen);
          raised = λ x k. omega (arith, q.same_sent);
          same_tables = q.same_tables;
          same_commits = q.same_commits;
        }

    act-IsPaid :
        (a : Json) (v : Verdict) (w : World) → IsUnused w → IsPaid l g t e w (act l s req a v w)
    unfolding act accept
    act-IsPaid a (decrypt_failed reason) w u =
        IsPaid-quiet _ w (fail_and_return-IsQuiet _ _ _ _ _ _)
    act-IsPaid a (schema_failed body reason) w u =
        IsPaid-quiet _ w (fail_and_return-IsQuiet _ _ _ _ _ _)
    act-IsPaid a (accepted body p) w u =
        let (r, w') =
          check_idempotency l req.gateway p.transaction_id p.event req.correlation_id w in
        accept-continue a body p w r w' (check_idempotency-IsCheck p w u)
    act-IsPaid a (broken x) w u = IsPaid-quiet (throw x) w (IsQuiet-pure l g t e (raise x))

    recover-IsPaid :
        (w : World) (r : Result Response) (w' : World)
        → IsPaid l g t e w (r, w')
        → IsPaid l g t e w (recover (unavailable l s) (r, w'))
    recover-IsPaid w (ok a) w' h = h
    recover-IsPaid w (raise (http c m)) w' h = h
    recover-IsPaid w (raise x) w' h = record {
      paid = h.paid;
      unique = h.unique;
      raised = λ y k. cc;
      same_tables = h.same_tables;
      same_commits = h.same_commits;
    }

    receive-continue :
        (w : World) (r : Result Json)
        → IsUnused w
        → IsPaid l g t e w (
            continue
              (λ raw_body.
                catch (act l s req raw_body (examine l s req raw_body)) (unavailable l s))
              (r, w))
    receive-continue w (ok raw_body) u =
        let (r, w') = act l s req raw_body (examine l s req raw_body) w in
        recover-IsPaid w r w' (act-IsPaid raw_body (examine l s req raw_body) w u)
    receive-continue w (raise x) u = IsPaid-quiet (throw x) w (IsQuiet-pure l g t e (raise x))

    pub receive_webhook-IsPaid :
        (w : World) → IsUnused w → IsPaid l g t e w (receive_webhook l s req w)
    unfolding receive_webhook
    receive_webhook-IsPaid w u = elim (Bool-cases (is_valid_gateway req.gateway)) [
      | inl known ↦ rw known (receive-continue w (read_body l s req.body) u)
      | inr unknown ↦ rw unknown (
          IsPaid-quiet (throw (http 422 ("Invalid gateway: " +++ req.gateway))) w
            (IsQuiet-pure l g t e _))
    ]
