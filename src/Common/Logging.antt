-- ===== src/Common/Logging.antt =====
-- logging.py: the handlers and levels that `setup_logging` leaves, and the hash of a customer's
-- e-mail. What a processor of structlog does to an event is the library's; its name stands here.
pub mod Laws
use gex_test_jonatha.Prelude.{
  ℕ, suc, String, Bool, true, false, Option, none, some, List, [], ◌∷◌, ◌++◌, any, ◌==◌,
  if◌then◌else◌,
}
use gex_test_jonatha.Prelude.Strings.{◌+++◌, str_take}
use gex_test_jonatha.Exec.{Exn, value_error, Exec, pure, throw, gets, modify, continue, ◌>>=◌, ◌>>◌}
use gex_test_jonatha.Json.{Json, Fields, end, field}
use gex_test_jonatha.Common.Library.{Library}

pub data Processor : Type 0 where
  merge_contextvars add_logger_name add_log_level positional_arguments extra_adder
        drop_color_message time_stamper_iso stack_info_renderer format_exc_info unicode_decoder
        wrap_for_formatter remove_processors_meta json_renderer :
      Processor

-- A StreamHandler with its ProcessorFormatter, numbered by its making.
pub record Handler : Type 0 where
  pub number : ℕ
  pub foreign_pre_chain : List Processor
  pub processors : List Processor

pub record Logger : Type 0 where
  pub handlers : List Handler
  pub propagate : Bool
  pub level : Option String

-- The loggers by name, structlog's configuration, and how many handlers have been made.
pub record Loggers : Type 0 where
  pub root : Logger
  pub uvicorn : Logger
  pub uvicorn_error : Logger
  pub uvicorn_access : Logger
  pub receiver_app : Logger
  pub receiver_access : Logger
  pub structlog_processors : List Processor
  pub made : ℕ

-- `event_dict.pop("color_message", None)`
unfoldable pub drop_color_message_key : Fields → Fields
drop_color_message_key end = end
drop_color_message_key (field k v d) =
    let rest = drop_color_message_key d in if k == "color_message" then d else field k v rest

abbrev pub shared_processors : List Processor
shared_processors =
    merge_contextvars ∷ add_logger_name ∷ add_log_level ∷ positional_arguments ∷ extra_adder
    ∷ drop_color_message ∷ time_stamper_iso ∷ stack_info_renderer ∷ format_exc_info
    ∷ unicode_decoder ∷ []

-- the names that `Logger.setLevel` takes
abbrev pub is_level : String → Bool
is_level name =
    any (λ k. k == name)
      ("CRITICAL" ∷ "FATAL" ∷ "ERROR" ∷ "WARN" ∷ "WARNING" ∷ "INFO" ∷ "DEBUG" ∷ "NOTSET" ∷ [])

abbrev pub new_handler : ℕ → Handler
new_handler n = record {
  number = n;
  foreign_pre_chain = shared_processors;
  processors = remove_processors_meta ∷ json_renderer ∷ [];
}

abbrev pub with_handlers : List Handler → Logger → Logger
with_handlers hs lgr = record lgr { handlers = hs }

-- `lgr.handlers.clear()`, `lgr.propagate = …`
abbrev pub cleared : Bool → Logger → Logger
cleared propagate lgr = record lgr { handlers = []; propagate = propagate }

-- `structlog.configure`, and the handler of the root logger
abbrev pub configure_root : Loggers → Loggers
configure_root ls = record ls {
  structlog_processors = shared_processors ++ wrap_for_formatter ∷ [];
  root = with_handlers (new_handler ls.made ∷ []) ls.root;
  made = suc ls.made;
}

-- `root_logger.setLevel(name)`
unfoldable pub set_root_level : String → Exec Loggers (Unit {0})
set_root_level name =
    if is_level name
    then modify (λ ls. record ls { root = record ls.root { level = some name } })
    else throw (value_error "ValueError" ("Unknown level: '" +++ name +++ "'"))

-- the loop over uvicorn's loggers, and its access logger
abbrev pub configure_uvicorn : Loggers → Loggers
configure_uvicorn ls = record ls {
  uvicorn = cleared true ls.uvicorn;
  uvicorn_error = cleared true ls.uvicorn_error;
  uvicorn_access = cleared false ls.uvicorn_access;
}

-- `upper` is `str.upper`.
unfoldable pub setup_logging : (String → String) → String → Exec Loggers (Unit {0})
unfolding set_root_level
setup_logging upper level = do
  modify configure_root
  set_root_level (upper level)
  modify configure_uvicorn

-- `get_app_logger` and `get_access_logger`: "gex_receiver.app" and "gex_receiver.access"
abbrev pub get_app_logger : Loggers → Logger
get_app_logger ls = ls.receiver_app

abbrev pub get_access_logger : Loggers → Logger
get_access_logger ls = ls.receiver_access

unfoldable pub anonymize_customer_id : Library → String → String
anonymize_customer_id l email = str_take 8 (l.sha256_hex email)
