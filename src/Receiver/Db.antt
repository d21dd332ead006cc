-- ===== src/Receiver/Db.antt =====
-- The SQL calls of the receiver's db.py, on the tables that the session sees.
pub mod Laws
pub mod Keys
use gex_test_jonatha.Prelude.{
  ℕ, suc, String, Bool, true, false, Option, none, some, List, [], ◌∷◌, ◌++◌, ◌&&◌, any, eqb, ◌==◌,
  if◌then◌else◌,
}
use gex_test_jonatha.Exec.{Exec, ok, raise, pure, gets, modify, continue, ◌>>=◌, ◌>>◌}
use gex_test_jonatha.Json.{Json, Fields, null, text, dict, end, field}
use gex_test_jonatha.Common.Models.{Time}
use gex_test_jonatha.Common.Library.{Library}
use gex_test_jonatha.World.{World, Tables, RawPayload, ProcessedEvent, same_text}
use gex_test_jonatha.World.Calls.{call, with_fault, new_uuid7, write}

abbrev pub headers_json : List (String × String) → Fields
headers_json [] = end
headers_json ((k, v) ∷ hs) = field k (text v) (headers_json hs)

-- `_json_dump(body) if body is not None else None`
abbrev pub dump_unless_none : Library → Json → Option String
dump_unless_none l null = none
dump_unless_none l v = some (l.dumps v)

abbrev pub add_raw_payload : RawPayload → Tables → Tables
add_raw_payload r t = record t { raw_payloads = t.raw_payloads ++ r ∷ [] }

abbrev pub put_events : List ProcessedEvent → Tables → Tables
put_events es t = record t { processed_events = es }

module _ (l : Library) where
  unfoldable pub insert_raw_payload :
      String
      → Time
      → List (String × String)
      → Json
      → Json
      → String
      → Option String
      → String
      → Exec World String
  insert_raw_payload gateway received_at headers body_original body_decrypted processing_status
        error_detail correlation_id =
      do
        payload_id ← new_uuid7 l
        call
        modify (
            write (
              add_raw_payload (record {
                id = payload_id;
                gateway = gateway;
                received_at = received_at;
                headers = l.dumps (dict (headers_json headers));
                body_original = l.dumps body_original;
                body_decrypted = dump_unless_none l body_decrypted;
                processing_status = processing_status;
                error_detail = error_detail;
                correlation_id = correlation_id;
              })))
        pure payload_id

  -- The UNIQUE index of `processed_events`: (gateway, transaction_id, event).
  unfoldable pub has_key : String → String → String → ProcessedEvent → Bool
  has_key gateway transaction_id event r =
      same_text l r.gateway gateway
      && (same_text l r.transaction_id transaction_id && same_text l r.event event)

  -- `ON DUPLICATE KEY UPDATE correlation_id = new.correlation_id`: the rows, and the `rowcount`
  unfoldable pub upsert : ProcessedEvent → List ProcessedEvent → List ProcessedEvent × ℕ
  upsert new [] = (new ∷ [], 1)
  upsert new (r ∷ rs) =
      let (rest, n) = upsert new rs in
      if has_key new.gateway new.transaction_id new.event r
      then (
        record r { correlation_id = new.correlation_id } ∷ rs,
        if r.correlation_id == new.correlation_id then l.unchanged_rowcount else 2,
      )
      else (r ∷ rest, n)

  -- the statement: the session's rows change, and the row count is the result
  unfoldable pub insert_event : ProcessedEvent → Exec World ℕ
  insert_event new w =
      let (rows, n) = upsert new w.session.processed_events in (ok n, write (put_events rows) w)

  unfoldable pub check_idempotency : String → String → String → String → Exec World Bool
  unfolding insert_event
  check_idempotency gateway transaction_id event correlation_id = do
    event_id ← new_uuid7 l
    call
    now ← gets (λ w. w.now)
    rowcount ← insert_event (record {
      id = event_id;
      gateway = gateway;
      transaction_id = transaction_id;
      event = event;
      correlation_id = correlation_id;
      created_at = now;
    })
    pure (eqb rowcount 1)
