-- ===== src/Receiver/Routes.antt =====
-- routes.py: `receive_webhook`. The part up to the validation has no effect, and its outcome is a
-- `Verdict`; `act` does what the handler does for each outcome. Logging is left out.
pub mod Effects
pub mod Paid
pub mod AtMostOnce
pub mod Outcome
pub mod Refinement
pub mod LostLead
pub mod Replay
pub mod Encrypted
pub mod Keeps
pub mod Rows
pub mod Recorded
pub mod Audit
use gex_test_jonatha.Prelude.{
  ℕ, String, Bool, true, false, Option, none, some, List, [], ◌∷◌, ◌&&◌, ◌||◌, not, ◌==◌,
  if◌then◌else◌,
}
use gex_test_jonatha.Prelude.Strings.{◌+++◌}
use gex_test_jonatha.Exec.{
  Exn, http, decryption, json_decode, value_error, type_error, runtime_error, message, Result, ok,
  raise, and_then, Exec, pure, throw, lift, recover, catch, continue, ◌>>=◌, ◌>>◌,
}
use gex_test_jonatha.Json.{
  Json, Fields, null, bool, integer, real, text, list, dict, end, type_name,
}
use gex_test_jonatha.Common.Config.{
  AppSettings, is_valid_gateway, gateway_grummer, event_order_approved, payment_approved,
  status_accepted, status_decrypt_failed, status_schema_failed, status_duplicate,
  status_discarded_non_approved, queue_dlq_decrypt_failed, queue_dlq_schema_failed,
}
use gex_test_jonatha.Common.Models.{
  Time, WebhookPayload, GrummerEncryptedBody, LeadReceivedMessage, DlqMessage, ProcessingResult,
  status_text,
}
use gex_test_jonatha.Common.Library.{Library, Bytes}
use gex_test_jonatha.Common.Crypto.{decrypt_grummer, is_value_error}
use gex_test_jonatha.Common.Validation.{ValidationError, ValidationResult, validate_schema, join}
use gex_test_jonatha.World.{World}
use gex_test_jonatha.World.Calls.{new_uuid7}
use gex_test_jonatha.World.Session.{with_dependency}
use gex_test_jonatha.Receiver.Db.{insert_raw_payload, check_idempotency}
use gex_test_jonatha.Receiver.Publisher.{publish_lead_received, publish_dlq}

pub record Request : Type 0 where
  pub gateway : String
  pub body : Bytes
  pub headers : List (String × String)
  pub correlation_id : String
  pub received_at : Time

pub data Response : Type 0 where
  result : ℕ → ProcessingResult → Response
  detail : ℕ → String → Response

-- The outcome of decryption and validation.
pub data Verdict : Type 0 where
  decrypt_failed : String → Verdict
  schema_failed : Json → String → Verdict
  accepted : Json → WebhookPayload → Verdict
  broken : Exn → Verdict

-- `headers.get(k, "")`
abbrev pub header : String → List (String × String) → String
header k [] = ""
header k ((j, v) ∷ hs) = if j == k then v else header k hs

-- `except (DecryptionError, json.JSONDecodeError, TypeError, ValueError)`
abbrev pub is_decrypt_error : Exn → Bool
is_decrypt_error (decryption _) = true
is_decrypt_error (type_error _) = true
is_decrypt_error e = is_value_error e

abbrev pub json_error : Result Json → Result Json
json_error (raise (json_decode m)) = raise (http 400 ("Invalid JSON: " +++ m))
json_error r = r

-- `f"{e.field}: {e.message}"`
abbrev pub error_text : ValidationError → String
error_text e = e.field +++ ": " +++ e.message

abbrev pub error_texts : List ValidationError → List String
error_texts [] = []
error_texts (e ∷ es) = error_text e ∷ error_texts es

abbrev pub or_raw : Json → Json → Json
or_raw null raw_body = raw_body
or_raw v raw_body = v

abbrev pub is_approved : WebhookPayload → Bool
is_approved p = p.event == event_order_approved && status_text p.payment.status == payment_approved

module _ (l : Library) (settings : AppSettings) where
  -- `GrummerEncryptedBody(**raw_body)`
  abbrev pub parse_encrypted : Json → Result GrummerEncryptedBody
  parse_encrypted (dict d) = l.encrypted_body d
  parse_encrypted v = raise (
      type_error (
        "gex_common.models.GrummerEncryptedBody() argument after ** must be a mapping, not "
        +++ type_name v))

  -- the body of the inner `try`
  unfoldable pub decrypt_body : Json → Result Json
  decrypt_body raw_body = and_then (parse_encrypted raw_body) λ encrypted.
      and_then (decrypt_grummer l encrypted.iv encrypted.ciphertext settings.grummer_secret_hex)
        λ plaintext. l.loads plaintext

  -- the gateway is grummer's, and the header says that the body is encrypted
  unfoldable pub is_encrypted : Request → Bool
  is_encrypted req =
      req.gateway == gateway_grummer && l.lower (header "x-gr-encrypted" req.headers) == "true"

  abbrev pub of_validation : Json → ValidationResult → Verdict
  of_validation body r =
      if r.is_valid
      then elim r.payload [
        | none ↦ broken (runtime_error "Validation succeeded but payload is None")
        | some p ↦ accepted body p
      ]
      else schema_failed body (join "; " (error_texts r.errors))

  unfoldable pub validate : Json → Verdict
  validate body = of_validation body (validate_schema l body)

  -- what follows the inner `try`, with its outcome
  unfoldable pub after_decrypt : Json → Result Json → Verdict
  unfolding validate
  after_decrypt raw_body (ok body_decrypted) = validate (or_raw body_decrypted raw_body)
  after_decrypt raw_body (raise e) =
      if is_decrypt_error e then decrypt_failed (message e) else broken e

  -- steps 4 to 7 of the handler
  unfoldable pub examine : Request → Json → Verdict
  unfolding after_decrypt decrypt_body is_encrypted
  examine req raw_body =
      if is_encrypted req then after_decrypt raw_body (decrypt_body raw_body) else validate raw_body

  -- `DLQMessage(...)`, which pydantic refuses around what is no dict
  abbrev pub dlq_message : Request → Json → String → String → Result DlqMessage
  dlq_message req (dict d) error_reason dlq_queue = ok (record {
    original_payload = dict d;
    error_reason = error_reason;
    gateway = req.gateway;
    correlation_id = req.correlation_id;
    queue_origin = dlq_queue;
  })
  dlq_message req v error_reason dlq_queue =
      raise (value_error "ValidationError" (l.dlq_payload_error v))

  -- `_fail_and_return`
  unfoldable pub fail_and_return :
      Request → Json → Json → String → String → Json → String → Exec World Response
  fail_and_return req body_original body_decrypted result_status error_reason dlq_payload
        dlq_queue =
      do
        insert_raw_payload l req.gateway req.received_at req.headers body_original body_decrypted
            result_status (some error_reason) req.correlation_id
        msg ← lift (dlq_message req dlq_payload error_reason dlq_queue)
        publish_dlq msg dlq_queue
        pure (
            result 202 (record {
              status = result_status;
              correlation_id = req.correlation_id;
              error_detail = some error_reason;
            }))

  -- a payload row without an error, and the response of status 200
  unfoldable pub insert_and_return : Request → Json → Json → String → Exec World String
  insert_and_return req raw_body body status =
      insert_raw_payload l req.gateway req.received_at req.headers raw_body body status none
        req.correlation_id

  abbrev pub plain_result : Request → String → Response
  plain_result req status =
      result 200
        (record { status = status; correlation_id = req.correlation_id; error_detail = none })

  unfoldable pub lead_message : Request → WebhookPayload → String → LeadReceivedMessage
  lead_message req p event_id = record {
    event_id = event_id;
    transaction_id = p.transaction_id;
    transaction_time = p.transaction_time;
    event = p.event;
    customer = p.customer;
    product = p.product;
    payment = p.payment;
    gateway = req.gateway;
    correlation_id = req.correlation_id;
  }

  -- step 9
  unfoldable pub route : Request → Json → Json → WebhookPayload → Exec World Response
  unfolding insert_and_return lead_message
  route req raw_body body p =
      if is_approved p
      then (do
        insert_and_return req raw_body body status_accepted
        event_id ← new_uuid7 l
        publish_lead_received (lead_message req p event_id)
        pure (plain_result req status_accepted))
      else (do
        insert_and_return req raw_body body status_discarded_non_approved
        pure (plain_result req status_discarded_non_approved))

  unfoldable pub duplicate : Request → Json → Json → Exec World Response
  unfolding insert_and_return
  duplicate req raw_body body = do
    insert_and_return req raw_body body status_duplicate
    pure (plain_result req status_duplicate)

  -- steps 8 and 9
  unfoldable pub accept : Request → Json → Json → WebhookPayload → Exec World Response
  unfolding route duplicate
  accept req raw_body body p = do
    is_new ← check_idempotency l req.gateway p.transaction_id p.event req.correlation_id
    if is_new then route req raw_body body p else duplicate req raw_body body

  unfoldable pub act : Request → Json → Verdict → Exec World Response
  unfolding fail_and_return accept
  act req raw_body (decrypt_failed reason) =
      fail_and_return req raw_body null status_decrypt_failed reason raw_body
        queue_dlq_decrypt_failed
  act req raw_body (schema_failed body reason) =
      fail_and_return req raw_body body status_schema_failed reason body queue_dlq_schema_failed
  act req raw_body (accepted body p) = accept req raw_body body p
  act req raw_body (broken e) = throw e

  -- `except HTTPException: raise`, `except Exception:` with a 503
  abbrev pub unavailable : Exn → Exec World Response
  unavailable (http status reason) = throw (http status reason)
  unavailable e = pure (detail 503 "Service temporarily unavailable")

  -- `json.loads(body_bytes) if body_bytes else {}`
  unfoldable pub read_body : Bytes → Result Json
  read_body [] = ok (dict end)
  read_body (b ∷ bs) = json_error (l.loads_bytes (b ∷ bs))

  unfoldable pub receive_webhook : Request → Exec World Response
  unfolding examine act read_body
  receive_webhook req =
      if not (is_valid_gateway req.gateway)
      then throw (http 422 ("Invalid gateway: " +++ req.gateway))
      else (do
        raw_body ← lift (read_body req.body)
        catch (act req raw_body (examine req raw_body)) unavailable)

  -- the handler inside the dependency that gives it its session
  unfoldable pub handle_webhook : Request → Exec World Response
  unfolding receive_webhook with_dependency
  handle_webhook req = with_dependency (receive_webhook req)
