-- ===== src/Tests/App.antt =====
-- The theorems on the receiver's application, applied.
use gex_test_jonatha.Prelude.{
  ℕ, ◌+◌, ◌≡◌, refl, ◌⊎◌, inl, String, true, false, none, some, List, [], ◌∷◌, ◌++◌, arith,
}
use gex_test_jonatha.Exec.{Exn, lib, ok, raise, Exec}
use gex_test_jonatha.Json.{dict}
use gex_test_jonatha.Common.Config.{default_settings}
use gex_test_jonatha.Common.Library.{Bytes}
use gex_test_jonatha.Common.Logging.{
  Logger, Loggers, setup_logging, new_handler, get_app_logger, get_access_logger,
}
use gex_test_jonatha.Common.Logging.Laws.{
  logged, logged_below, handled, dropped, setup_logging_handlers,
}
use gex_test_jonatha.Common.Crypto.Laws.{Cipher, sealed, Inverts, HasLengths}
use gex_test_jonatha.Receiver.Routes.{Request, is_encrypted, examine}
use gex_test_jonatha.Receiver.Routes.Encrypted.{examine-encrypted}
use gex_test_jonatha.Receiver.App.{App, no_database, no_state, lifespan}
use gex_test_jonatha.Receiver.App.Lifespan.{
  facing, started, IsServing, IsShut, start_quiet, lifespan_releases, lifespan_leaks,
}
use gex_test_jonatha.Receiver.Health.{health_ready}
use gex_test_jonatha.Receiver.Health.Laws.{code_of, IsReady, health_ready_iff}
use gex_test_jonatha.Receiver.Middleware.{Scope, Behaviour, Wire, decode_headers, handle}
use gex_test_jonatha.Receiver.Middleware.Answers.{
  calm, answer, id_of, bound, logged_status, handle_answers,
}
use gex_test_jonatha.Receiver.Middleware.Logs.{handle_logs}
use gex_test_jonatha.Tests.Data.{library, world, request, lead_fields, sixteen}

abbrev fresh_logger : Logger
fresh_logger = record { handlers = []; propagate = true; level = none }

-- uvicorn's loggers have handlers of their own
abbrev uvicorn_logger : Logger
uvicorn_logger = record { handlers = new_handler 0 ∷ []; propagate = false; level = some "INFO" }

abbrev pub loggers : Loggers
loggers = record {
  root = fresh_logger;
  uvicorn = uvicorn_logger;
  uvicorn_error = fresh_logger;
  uvicorn_access = uvicorn_logger;
  receiver_app = fresh_logger;
  receiver_access = fresh_logger;
  structlog_processors = [];
  made = 1;
}

abbrev same : String → String
same s = s

setup_logging_handlers_example :
    let (r, ls') = setup_logging same "INFO" loggers in
    let own = new_handler 1 ∷ [] in
    (r ≡ ok tt)
    × (logged 20 ls'.root (get_app_logger ls') ≡ handled own)
    × (logged 20 ls'.root (get_access_logger ls') ≡ handled own)
    × (logged 20 ls'.root ls'.uvicorn ≡ handled own)
    × (logged_below 20 ls'.root ls'.uvicorn ls'.uvicorn_error ≡ handled own)
    × (logged_below 20 ls'.root ls'.uvicorn ls'.uvicorn_access ≡ dropped)
setup_logging_handlers_example =
    setup_logging_handlers same "INFO" loggers 20 refl
      (record { handlers = refl; propagate = refl; level = refl })
      (record { handlers = refl; propagate = refl; level = refl })

abbrev app : App
app = record {
  world = world;
  loggers = loggers;
  database = no_database;
  engines = 0;
  state = no_state;
}

abbrev serve : Exec App ℕ
serve a = (ok 7, a)

lifespan_releases_example :
    let (r', a3) = lifespan same default_settings serve (facing [] app) in
    IsServing (started same default_settings refl app)
    × ((started same default_settings refl app).engines ≡ 0 + 1)
    × (r' ≡ ok 7)
    × IsShut a3
    × (a3.engines ≡ 0)
lifespan_releases_example =
    lifespan_releases same default_settings refl app serve (ok 7)
      (started same default_settings refl app) refl (start_quiet same default_settings refl app).1
      (start_quiet same default_settings refl app).3 refl

-- RabbitMQ goes away while the application is served
abbrev lost : App
lost = facing (some ("AMQPError", "gone") ∷ []) (started same default_settings refl app)

abbrev serve_and_lose : Exec App ℕ
serve_and_lose a = (ok 7, facing (some ("AMQPError", "gone") ∷ []) a)

lost-IsServing : IsServing lost
lost-IsServing =
    let h = (start_quiet same default_settings refl app).1 in
    record { engine = h.engine; connection = h.connection }

lifespan_leaks_example :
    (let (r', a3) = lifespan same default_settings serve_and_lose (facing [] app) in
      (r' ≡ raise (lib "AMQPError" "gone"))
      × (a3.database.engine ≡ true)
      × (a3.engines ≡ lost.engines))
    × (let (r', a3) =
          lifespan same default_settings serve_and_lose
            (facing (none ∷ some ("AMQPError", "gone") ∷ []) app) in
        (r' ≡ raise (lib "AMQPError" "gone")) × (a3.database.engine ≡ true) × (a3.engines ≡ 0 + 1))
lifespan_leaks_example =
    lifespan_leaks same default_settings refl app serve_and_lose (ok 7) lost "AMQPError" "gone" []
      refl lost-IsServing refl

health_ready_iff_example :
    ((code_of (health_ready (ok false) app).0 ≡ 200) × IsReady app (ok false))
    ⊎ ((code_of (health_ready (ok false) app).0 ≡ 503) × (¬ IsReady app (ok false)))
health_ready_iff_example = health_ready_iff app (ok false)

-- a sender whose texts and bytes are those that the small library reads
abbrev cipher : Cipher
cipher = record {
  hex = λ b. "";
  b64encode = λ b. "";
  pad = λ b. b;
  encrypt = λ key iv b. b;
  encode = λ s. sixteen;
}

abbrev encrypted_request : Request
encrypted_request = record request {
  gateway = "grummer";
  headers = ("x-gr-encrypted", "true") ∷ [];
}

cipher-Inverts : Inverts library cipher sixteen sixteen "{}"
cipher-Inverts = record {
  from_hex = refl;
  b64decode_iv = refl;
  b64decode_sealed = refl;
  aes_cbc_decrypt = refl;
  pkcs7_unpad = refl;
  utf8_decode = refl;
}

sixteen-HasLengths : HasLengths sixteen sixteen (sealed cipher sixteen sixteen "{}")
sixteen-HasLengths = record {
  key_length = inl refl;
  iv_length = refl;
  not_empty = λ e. absurd (omega (arith, e));
  whole_blocks = refl;
}

examine-encrypted_example :
    examine library default_settings encrypted_request (dict lead_fields)
    ≡ examine library default_settings request (dict lead_fields)
unfolding is_encrypted
examine-encrypted_example =
    examine-encrypted library default_settings cipher sixteen sixteen "{}" (dict lead_fields)
      encrypted_request request lead_fields cipher-Inverts sixteen-HasLengths refl refl tt refl refl
      refl

-- bytes that the small library reads as the text {}
abbrev scope : Scope
scope = record {
  kind = "http";
  headers = (1 ∷ [], 2 ∷ []) ∷ [];
  method = "POST";
  path = "/webhooks/lous";
}

abbrev wire : Wire
wire = record {
  sent = [];
  send_faults = [];
  context = [];
  access_log = [];
  uuid_count = 1;
  status_code = 200;
  response_started = true;
}

abbrev encode : String → Bytes
encode s = []

-- it raises before it has answered
abbrev crashing : Wire → Behaviour
crashing w = record { sends = []; ends = raise (lib "KeyError" "'x'") }

handle_answers_example :
    let (r, w') = handle library encode [] [] scope crashing (calm library encode [] [] wire) in
    let b = crashing (bound library encode [] [] scope (("{}", "{}") ∷ []) wire) in
    (r ≡ ok tt)
    × (w'.sent
        ≡ [] ++ answer library encode [] [] (id_of library encode [] [] (("{}", "{}") ∷ []) wire) b)
    × (w'.access_log ≡ [] ++ logged_status library encode [] [] b ∷ [])
unfolding decode_headers
handle_answers_example =
    handle_answers library encode [] [] scope refl crashing (("{}", "{}") ∷ []) wire refl

handle_logs_example :
    ((headers : List (String × String)) × (code : ℕ) × (decode_headers library encode [] []
          scope.headers
        ≡ ok headers)
      × ((handle library encode [] [] scope crashing wire).1.access_log ≡ [] ++ code ∷ []))
    ⊎ ((e : Exn) × (decode_headers library encode [] [] scope.headers ≡ raise e)
        × (handle library encode [] [] scope crashing wire
            ≡ (raise e, record wire { context = [] })))
handle_logs_example = handle_logs library encode [] [] scope refl crashing wire
