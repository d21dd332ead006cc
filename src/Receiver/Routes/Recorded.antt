-- ===== src/Receiver/Routes/Recorded.antt =====
-- The row of `raw_payloads` that the session has behind each answer of `receive_webhook`, whatever
-- MySQL and RabbitMQ raise.
use gex_test_jonatha.Prelude.{
  ◌≡◌, refl, String, Bool, true, false, Option, none, some, List, [], ◌∷◌, ◌++◌, not, if◌then◌else◌,
}
use gex_test_jonatha.Exec.{Exn, http, Result, Exec, pure, lift, ◌>>=◌, ◌>>◌}
use gex_test_jonatha.Exec.Keeps.{Keeps, Keeps-pure, Keeps-lift}
use gex_test_jonatha.Exec.Gives.{Gives, Gives-Keeps, Gives-recover, Gives-continue}
use gex_test_jonatha.Json.{Json, dict}
use gex_test_jonatha.Common.Config.{
  AppSettings, is_valid_gateway, status_accepted, status_duplicate, status_discarded_non_approved,
}
use gex_test_jonatha.Common.Models.{WebhookPayload}
use gex_test_jonatha.Common.Library.{Library}
use gex_test_jonatha.World.{World, RawPayload}
use gex_test_jonatha.World.Calls.{call, new_uuid7}
use gex_test_jonatha.Receiver.Db.{headers_json, dump_unless_none, insert_raw_payload}
use gex_test_jonatha.Receiver.Publisher.{publish_lead_received, publish_dlq}
use gex_test_jonatha.Receiver.Routes.{
  Request, Response, result, detail, Verdict, decrypt_failed, schema_failed, accepted, broken,
  is_approved, dlq_message, insert_and_return, plain_result, lead_message, fail_and_return, route,
  duplicate, accept, act, unavailable, read_body, examine, receive_webhook,
}
use gex_test_jonatha.Receiver.Routes.Rows.{
  Rows, call-Rows, check_idempotency-Rows, publish_lead_received-Rows, publish_dlq-Rows,
}

-- One more row than before, with what an answer says.
abbrev pub Noted : List RawPayload → Request → String → Option String → List RawPayload → Type 0
Noted before req status error rows =
    (row : RawPayload) × (rows ≡ before ++ row ∷ [])
    × (row.gateway ≡ req.gateway)
    × (row.correlation_id ≡ req.correlation_id)
    × (row.processing_status ≡ status)
    × (row.error_detail ≡ error)

-- the answers that say what was done
abbrev pub Recorded : List RawPayload → Request → Response → List RawPayload → Type 0
Recorded before req (result code r) rows =
    Noted before req r.status r.error_detail rows × (r.correlation_id ≡ req.correlation_id)
Recorded before req (detail code reason) rows = Unit {0}

module _ (l : Library) (s : AppSettings) (req : Request) (before : List RawPayload) where
  -- where the session's rows are still those from before
  abbrev pub Unchanged : World → Type 0
  Unchanged = Rows (λ rows. rows ≡ before)

  abbrev pub Goal : Result Response × World → Type 0
  Goal = Gives (λ r w. Recorded before req r w.session.raw_payloads)

  insert-Noted :
      (original decrypted : Json) (status : String) (error : Option String) (w : World)
      → Unchanged w
      → Gives
          (λ _ v. Noted before req status error v.session.raw_payloads)
          (insert_raw_payload l req.gateway req.received_at req.headers original decrypted status
            error req.correlation_id w)
  unfolding insert_raw_payload
  insert-Noted original decrypted status error w h =
      let row : RawPayload = record {
        id = l.uuid7 w.uuid_count;
        gateway = req.gateway;
        received_at = req.received_at;
        headers = l.dumps (dict (headers_json req.headers));
        body_original = l.dumps original;
        body_decrypted = dump_unless_none l decrypted;
        processing_status = status;
        error_detail = error;
        correlation_id = req.correlation_id;
      } in
      Gives-continue (λ _ v. Unchanged v) _ _ (call (new_uuid7 l w).1)
        (Gives-Keeps Unchanged call (new_uuid7 l w).1 (call-Rows _) h)
        (λ _ v k. (row, rw k refl, refl, refl, refl, refl))

  -- the end of a block whose calls leave the rows alone
  then_answer :
      {A : Type 0} (N : List RawPayload → Type 0) (m : Exec World A) (response : Response)
      (w : World)
      → Keeps (Rows N) m
      → ((rows : List RawPayload) → N rows → Recorded before req response rows)
      → Rows N w
      → Goal ((m >> pure response) w)
  then_answer N m response w k record_of n =
      Gives-continue (λ _ v. Rows N v) (λ r u. Recorded before req r u.session.raw_payloads)
        (λ _. pure response) (m w) (Gives-Keeps (Rows N) m w k n)
        (λ _ v n'. record_of v.session.raw_payloads n')

  Goal-if :
      (b : Bool) (m k : Exec World Response) (w : World)
      → Goal (m w)
      → Goal (k w)
      → Goal ((if b then m else k) w)
  Goal-if true m k w gm gk = gm
  Goal-if false m k w gm gk = gk

  fail_and_return-Goal :
      (original decrypted payload : Json) (status reason queue : String) (w : World)
      → Unchanged w
      → Goal (fail_and_return l s req original decrypted status reason payload queue w)
  unfolding fail_and_return
  fail_and_return-Goal original decrypted payload status reason queue w h =
      let N = Noted before req status (some reason) in
      let response = result 202 (record {
        status = status;
        correlation_id = req.correlation_id;
        error_detail = some reason;
      }) in
      Gives-continue (λ _ v. Rows N v) _ _ _
        (insert-Noted original decrypted status (some reason) w h)
        λ _ v n.
          Gives-continue (λ _ u. Rows N u) _ _ (lift (dlq_message l s req payload reason queue) v)
            (Gives-Keeps (Rows N) _ v (Keeps-lift (dlq_message l s req payload reason queue)) n)
            λ msg u n'.
              then_answer N (publish_dlq msg queue) response u (publish_dlq-Rows N msg queue)
                (λ rows k. (k, refl)) n'

  plain-Goal :
      {A : Type 0} (raw body : Json) (status : String) (m : Exec World A) (w : World)
      → ((N : List RawPayload → Type 0) → Keeps (Rows N) m)
      → Unchanged w
      → Goal (
          (insert_and_return l s req raw body status >> (m >> pure (plain_result l s req status)))
            w)
  unfolding insert_and_return
  plain-Goal raw body status m w k h =
      let N = Noted before req status none in
      Gives-continue (λ _ v. Rows N v) _ _ _ (insert-Noted raw body status none w h)
        λ _ v n. then_answer N m (plain_result l s req status) v (k N) (λ rows k'. (k', refl)) n

  announce : WebhookPayload → Exec World (Unit {0})
  announce p = do event_id ← new_uuid7 l; publish_lead_received (lead_message l s req p event_id)

  announce-Rows : (p : WebhookPayload) (N : List RawPayload → Type 0) → Keeps (Rows N) (announce p)
  unfolding announce
  announce-Rows p N = record {
    at = λ w h.
        (publish_lead_received-Rows N (lead_message l s req p (l.uuid7 w.uuid_count))).at _ h;
  }

  route-Goal :
      (raw body : Json) (p : WebhookPayload) (w : World)
      → Unchanged w
      → Goal (route l s req raw body p w)
  unfolding route announce
  route-Goal raw body p w h =
      Goal-if (is_approved p) _ _ w
        (plain-Goal raw body status_accepted (announce p) w (announce-Rows p) h)
        (plain-Goal raw body status_discarded_non_approved (pure tt) w (λ N. Keeps-pure tt) h)

  duplicate-Goal : (raw body : Json) (w : World) → Unchanged w → Goal (duplicate l s req raw body w)
  unfolding duplicate
  duplicate-Goal raw body w h =
      plain-Goal raw body status_duplicate (pure tt) w (λ N. Keeps-pure tt) h

  accept-Goal :
      (raw body : Json) (p : WebhookPayload) (w : World)
      → Unchanged w
      → Goal (accept l s req raw body p w)
  unfolding accept
  accept-Goal raw body p w h =
      Gives-continue (λ _ v. Unchanged v) _ _ _
        (Gives-Keeps Unchanged _ w
          (check_idempotency-Rows _ l req.gateway p.transaction_id p.event req.correlation_id) h)
        λ is_new v k. Goal-if is_new _ _ v (route-Goal raw body p v k) (duplicate-Goal raw body v k)

  act-Goal : (raw : Json) (v : Verdict) (w : World) → Unchanged w → Goal (act l s req raw v w)
  unfolding act
  act-Goal raw (decrypt_failed reason) w h = fail_and_return-Goal _ _ _ _ _ _ w h
  act-Goal raw (schema_failed body reason) w h = fail_and_return-Goal _ _ _ _ _ _ w h
  act-Goal raw (accepted body p) w h = accept-Goal raw body p w h
  act-Goal raw (broken e) w h = tt

  unavailable-Goal : (e : Exn) (w : World) → Goal (unavailable l s e w)
  unavailable-Goal (http status reason) w = tt
  unavailable-Goal _ w = tt

  pub receive_webhook-Goal : (w : World) → Unchanged w → Goal (receive_webhook l s req w)
  unfolding receive_webhook
  receive_webhook-Goal w h = Goal-if (not (is_valid_gateway req.gateway)) _ _ w tt (
      Gives-continue (λ _ v. Unchanged v) _ _ (lift (read_body l s req.body) w)
        (Gives-Keeps Unchanged _ w (Keeps-lift (read_body l s req.body)) h)
        λ raw v k.
          Gives-recover _ (unavailable l s) _ (act-Goal raw (examine l s req raw) v k)
            unavailable-Goal)
