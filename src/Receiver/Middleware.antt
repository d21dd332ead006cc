-- ===== src/Receiver/Middleware.antt =====
-- main.py of the receiver: `StructLogMiddleware`, between the server and the application. Of the log
-- the access entries are kept.
pub mod Answers
pub mod Logs
use gex_test_jonatha.Prelude.{
  ℕ, suc, String, Bool, true, false, Option, none, some, List, [], ◌∷◌, ◌++◌, not, ◌==◌,
  if◌then◌else◌,
}
use gex_test_jonatha.Prelude.Strings.{is_empty}
use gex_test_jonatha.Exec.{
  Exn, lib, Result, ok, raise, and_then, Exec, pure, throw, lift, gets, modify, recover, catch,
  finished, finally, continue, ◌>>=◌, ◌>>◌,
}
use gex_test_jonatha.Common.Library.{Library, Bytes}
use gex_test_jonatha.World.{Fault}

-- An ASGI message: the start of a response, or any other, by its type and its body.
pub data Message : Type 0 where
  start : ℕ → List (Bytes × Bytes) → Message
  other : String → Bytes → Message

pub record Scope : Type 0 where
  pub kind : String
  pub headers : List (Bytes × Bytes)
  pub method : String
  pub path : String

-- What the application does with one request: the messages that it sends, and how it ends. An
-- exception of `send` ends it too.
pub record Behaviour : Type 0 where
  pub sends : List Message
  pub ends : Result (Unit {0})

-- The connection to the client, structlog's context variables, the access log, and the local
-- variables of the call.
pub record Wire : Type 0 where
  pub sent : List Message
  pub send_faults : List Fault
  pub context : List (String × String)
  pub access_log : List ℕ
  pub uuid_count : ℕ
  pub status_code : ℕ
  pub response_started : Bool

abbrev pub send_with : List Fault → Message → Exec Wire (Unit {0})
send_with [] m w = (ok tt, record w { sent = w.sent ++ m ∷ [] })
send_with (none ∷ fs) m w = (ok tt, record w { sent = w.sent ++ m ∷ []; send_faults = fs })
send_with (some (c, t) ∷ fs) m w = (raise (lib c t), record w { send_faults = fs })

-- the server's `send`
abbrev pub send : Message → Exec Wire (Unit {0})
send m w = send_with w.send_faults m w

-- the application, with the `send` that it is given
unfoldable pub run_app :
    (Message → Exec Wire (Unit {0})) → List Message → Result (Unit {0}) → Exec Wire (Unit {0})
run_app to [] ends = lift ends
run_app to (m ∷ ms) ends = do to m; run_app to ms ends

abbrev pub bind_contextvars : String → Scope → Wire → Wire
bind_contextvars correlation_id scope w = record w {
  context =
      ("correlation_id", correlation_id)
      ∷ ("http_method", scope.method)
      ∷ ("http_path", scope.path)
      ∷ [];
}

-- `get_correlation_id` of dependencies.py, by what `str(uuid4())` gives
abbrev pub context_get : String → List (String × String) → String → String
context_get k [] default = default
context_get k ((j, v) ∷ c) default = if j == k then v else context_get k c default

abbrev pub get_correlation_id : Wire → String → String
get_correlation_id w fresh = context_get "correlation_id" w.context fresh

-- `encode` is `str.encode`, `error_headers` and `error_body` what starlette's JSONResponse makes of
-- the content {"detail": "Internal server error"}.
module _ (l : Library) (encode : String → Bytes) (error_headers : List (Bytes × Bytes))
    (error_body : Bytes) where
  -- `{k.decode(): v.decode() for k, v in …}`, and the last value of a key in it
  unfoldable pub decode_headers : List (Bytes × Bytes) → Result (List (String × String))
  decode_headers [] = ok []
  decode_headers ((k, v) ∷ hs) = and_then (l.utf8_decode k) λ name.
      and_then (l.utf8_decode v)
        λ value. and_then (decode_headers hs) λ rest. ok ((name, value) ∷ rest)

  abbrev pub last_value : String → String → List (String × String) → String
  last_value k found [] = found
  last_value k found ((j, v) ∷ hs) = last_value k (if j == k then v else found) hs

  -- the id of the request, or a fresh one if it has none or an empty one
  unfoldable pub request_id : List (String × String) → Exec Wire String
  request_id headers w =
      let id = last_value "x-correlation-id" "" headers in
      if is_empty id
      then (ok (l.uuid4 w.uuid_count), record w { uuid_count = suc w.uuid_count })
      else (ok id, w)

  -- the header that a start of a response gets
  abbrev pub tagged : String → Message → Message
  tagged id (start status headers) =
      start status (headers ++ (encode "x-correlation-id", encode id) ∷ [])
  tagged id m = m

  abbrev pub note_start : Message → Wire → Wire
  note_start (start status headers) w = record w { status_code = status; response_started = true }
  note_start m w = w

  unfoldable pub inner_send : String → Message → Exec Wire (Unit {0})
  inner_send id m = do modify (note_start m); send (tagged id m)

  -- `JSONResponse(...)` sends its start and its body
  unfoldable pub send_error : Exec Wire (Unit {0})
  send_error = do
    send (start 500 error_headers)
    send (other "http.response.body" error_body)
    modify (λ w. record w { status_code = 500 })

  -- `except Exception`
  unfoldable pub on_error : Exn → Exec Wire (Unit {0})
  unfolding send_error
  on_error e = do
    started ← gets (λ w. w.response_started)
    if not started then send_error else pure tt

  -- the `finally` block
  abbrev pub log_access : Exec Wire (Unit {0})
  log_access = modify (λ w. record w { access_log = w.access_log ++ w.status_code ∷ [] })

  -- the `try` statement
  unfoldable pub guarded : String → Behaviour → Exec Wire (Unit {0})
  unfolding run_app inner_send on_error
  guarded id app = finally (catch (run_app (inner_send id) app.sends app.ends) on_error) log_access

  unfoldable pub handle : Scope → (Wire → Behaviour) → Exec Wire (Unit {0})
  unfolding decode_headers request_id guarded run_app
  handle scope app =
      if not (scope.kind == "http") then (λ w. run_app send (app w).sends (app w).ends w) else (do
        modify (λ w. record w { context = [] })
        headers ← lift (decode_headers scope.headers)
        id ← request_id headers
        modify (bind_contextvars id scope)
        modify (λ w. record w { status_code = 500; response_started = false })
        λ w. guarded id (app w) w)
