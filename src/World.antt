-- ===== src/World.antt =====
-- What the receiver and the worker share: the tables of MySQL (sql/001_create_tables.sql), the
-- messages that RabbitMQ has taken, and the outcomes of the calls still to be made.
pub mod Session
pub mod Calls
pub mod Keeps
use gex_test_jonatha.Prelude.{
  ℕ, String, Bool, true, false, Option, none, some, List, [], ◌∷◌, ◌++◌, ◌==◌, ◌&&◌,
}
use gex_test_jonatha.Exec.{Exec, Exn, lib, ok, raise}
use gex_test_jonatha.Json.{Json}
use gex_test_jonatha.Common.Models.{Time, LeadReceivedMessage, DistributionMessage, DlqMessage}
use gex_test_jonatha.Common.Library.{Library}

pub record RawPayload : Type 0 where
  pub id : String
  pub gateway : String
  pub received_at : Time
  pub headers : String
  pub body_original : String
  pub body_decrypted : Option String
  pub processing_status : String
  pub error_detail : Option String
  pub correlation_id : String

pub record ProcessedEvent : Type 0 where
  pub id : String
  pub gateway : String
  pub transaction_id : String
  pub event : String
  pub correlation_id : String
  pub created_at : Time

pub record Lead : Type 0 where
  pub id : String
  pub email : String
  pub first_name : String
  pub last_name : Option String
  pub phone : Option String
  pub country : String
  pub created_at : Time
  pub updated_at : Time

pub record Order : Type 0 where
  pub id : String
  pub lead_id : String
  pub gateway : String
  pub transaction_id : String
  pub transaction_time : Time
  pub event : String
  pub product_id : String
  pub product_name : String
  pub product_niche : String
  pub quantity : ℕ
  pub amount_usd : String
  pub payment_method : String
  pub payment_status : String
  pub correlation_id : String
  pub created_at : Time

-- `lag_seconds` is the worker's difference of two times, in microseconds and with its sign.
pub data Lag : Type 0 where
  pos : ℕ → Lag
  neg : ℕ → Lag

pub record LeadEvent : Type 0 where
  pub id : String
  pub order_id : String
  pub correlation_id : String
  pub event : String
  pub gateway_timestamp : Time
  pub db_timestamp : Time
  pub lag_seconds : Lag

pub record DistributionStatus : Type 0 where
  pub id : String
  pub order_id : String
  pub correlation_id : String
  pub channel : String
  pub status : String
  pub attempts : ℕ
  pub next_retry_at : Option Time
  pub delivered_at : Option Time
  pub lag_db_to_channel_seconds : Option Lag
  pub error_detail : Option String
  pub updated_at : Time

pub record Tables : Type 0 where
  pub raw_payloads : List RawPayload
  pub processed_events : List ProcessedEvent
  pub leads : List Lead
  pub orders : List Order
  pub lead_events : List LeadEvent
  pub distribution_status : List DistributionStatus

abbrev pub empty_tables : Tables
empty_tables = record {
  raw_payloads = [];
  processed_events = [];
  leads = [];
  orders = [];
  lead_events = [];
  distribution_status = [];
}

-- The body of a message, before its serialisation to JSON.
pub data Body : Type 0 where
  lead : LeadReceivedMessage → Body
  distribution : DistributionMessage → Body
  dead : DlqMessage → Body

pub record Published : Type 0 where
  pub exchange : String
  pub routing_key : String
  pub headers : List (String × String)
  -- the one that the program gives; FastStream draws one if it gives none
  pub correlation_id : Option String
  pub expiration_ms : Option ℕ
  pub body : Body

-- Whether it is a message to a distributor that is no retry, since those have headers.
abbrev pub is_distribution : Body → Bool
is_distribution (distribution _) = true
is_distribution _ = false

abbrev pub no_headers : List (String × String) → Bool
no_headers [] = true
no_headers _ = false

abbrev pub is_first : Published → Bool
is_first p = no_headers p.headers && is_distribution p.body

-- What one call to MySQL or RabbitMQ does: none if it succeeds, else the class and the text of the
-- exception that it raises, with no effect.
abbrev pub Fault : Type 0
Fault = Option (String × String)

-- Which attributes of a `RabbitMQPublisher` are not None.
pub record Publisher : Type 0 where
  pub connection : Bool
  pub channel : Bool
  pub exchange_lead : Bool
  pub exchange_dist : Bool

pub data ExchangeKind : Type 0 where
  direct fanout : ExchangeKind

-- A durable exchange, a durable queue with its dead-letter exchange, a binding of a queue. What the
-- libraries send besides, such as the type of the queue, is left out.
pub data Declaration : Type 0 where
  exchange : String → ExchangeKind → Declaration
  queue : String → Option String → Declaration
  binding : String → String → String → Declaration

-- What happens to one SMS: the random failure, or the outcome of the POST. `status_error` is httpx's
-- HTTPStatusError with its code; `timeout` is a TimeoutException or ConnectError, and `broken` any
-- other exception, by class and text. A success takes some microseconds.
pub data SmsAttempt : Type 0 where
  simulated_failure : SmsAttempt
  success : ℕ → SmsAttempt
  status_error : ℕ → String → SmsAttempt
  timeout : String → String → SmsAttempt
  broken : String → String → SmsAttempt

pub record World : Type 0 where
  -- what is committed, and what the open session sees
  pub tables : Tables
  pub session : Tables
  pub published : List Published
  -- the calls and the commits to come; past the end all succeed
  pub faults : List Fault
  pub commit_faults : List Fault
  -- the outcomes of the SMS still to be sent; past the end all succeed at once
  pub sms_attempts : List SmsAttempt
  pub uuid_count : ℕ
  pub now : Time
  pub publisher : Publisher
  -- what has been declared at RabbitMQ, in order
  pub topology : List Declaration

-- a key of a table, compared by its collation
module _ (l : Library) where
  abbrev pub same_text : String → String → Bool
  same_text a b = l.collate a == l.collate b
