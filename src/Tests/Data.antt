-- ===== src/Tests/Data.antt =====
-- A small instance of what the program calls, and values of its types.
use gex_test_jonatha.Prelude.{ℕ, zero, suc, String, true, none, some, [], ◌∷◌, ◌&&◌, eqb, leb}
use gex_test_jonatha.Exec.{json_decode, Result, ok, raise}
use gex_test_jonatha.Json.{Json, Fields, text, dict, end, field}
use gex_test_jonatha.Common.Models.{
  CustomerData, ProductData, PaymentData, approved, WebhookPayload, LeadReceivedMessage,
  DistributionMessage,
}
use gex_test_jonatha.Common.Library.{Library, built, Bytes}
use gex_test_jonatha.World.{World, empty_tables, DistributionStatus}
use gex_test_jonatha.Receiver.Routes.{Request}

abbrev pub customer : CustomerData
customer = record {
  email = "ana@example.com";
  first_name = "Ana";
  last_name = none;
  phone = none;
  country = "BR";
}

abbrev pub product : ProductData
product = record { id = "P1"; name = "Course"; niche = "health"; quantity = 1 }

abbrev pub payment : PaymentData
payment = record { amount_usd = "10.0"; method = "card"; status = approved }

abbrev pub payload : WebhookPayload
payload = record {
  transaction_id = "T1";
  transaction_time = 5;
  event = "order.approved";
  customer = customer;
  product = product;
  payment = payment;
  gateway = "lous";
  correlation_id = "";
}

-- `loads_bytes` of the body [1]
abbrev pub lead_fields : Fields
lead_fields = field "gateway" (text "lous") (field "correlation_id" (text "c1") end)

abbrev pub parse_bytes : Bytes → Result Json
parse_bytes [] = raise (json_decode "Expecting value")
parse_bytes (b ∷ bs) = ok (dict lead_fields)

-- the n-th id
abbrev pub id_of : ℕ → String
id_of zero = "id-0"
id_of (suc zero) = "id-1"
id_of (suc (suc zero)) = "id-2"
id_of _ = "id-more"

abbrev pub sixteen : Bytes
sixteen = 1 ∷ 2 ∷ 3 ∷ 4 ∷ 5 ∷ 6 ∷ 7 ∷ 8 ∷ 9 ∷ 10 ∷ 11 ∷ 12 ∷ 13 ∷ 14 ∷ 15 ∷ 16 ∷ []

abbrev pub library : Library
library = record {
  is_space = λ n. eqb n 32;
  is_digit = λ n. leb 48 n && leb n 57;
  lower = λ s. s;
  email_ok = λ s. true;
  phone_check = λ s. none;
  phone_e164 = λ s. s;
  webhook_payload = λ d. built payload;
  encrypted_body = λ d. ok (record { iv = ""; ciphertext = "" });
  loads = λ s. ok (dict lead_fields);
  loads_bytes = parse_bytes;
  dumps = λ v. "{}";
  from_hex = λ s. ok sixteen;
  b64decode = λ s. ok sixteen;
  aes_cbc_decrypt = λ key iv b. ok b;
  pkcs7_unpad = λ b. ok b;
  utf8_decode = λ b. ok "{}";
  sha256_hex = λ s. s;
  show = λ n. "n";
  uuid7 = id_of;
  uuid4 = id_of;
  dlq_payload_error = λ v. "Input should be a valid dictionary";
  collate = λ s. s;
  unchanged_rowcount = 1;
  is_nonzero = λ s. true;
  dump_distribution = λ m. end;
}

-- the same with another text for the cipher's key
abbrev pub short_key : Library
short_key = record library { from_hex = λ s. ok (1 ∷ []) }

abbrev pub world : World
world = record {
  tables = empty_tables;
  session = empty_tables;
  published = [];
  faults = [];
  commit_faults = [];
  sms_attempts = [];
  uuid_count = 0;
  now = 100;
  publisher = record {
    connection = true;
    channel = true;
    exchange_lead = true;
    exchange_dist = true;
  };
  topology = [];
}

abbrev pub request : Request
request = record {
  gateway = "lous";
  body = 1 ∷ [];
  headers = [];
  correlation_id = "c1";
  received_at = 7;
}

abbrev pub lead_received : LeadReceivedMessage
lead_received = record {
  event_id = "e1";
  transaction_id = "T1";
  transaction_time = 5;
  event = "order.approved";
  customer = customer;
  product = product;
  payment = payment;
  gateway = "lous";
  correlation_id = "c1";
}

abbrev pub sms_message : DistributionMessage
sms_message = record {
  event_id = "e1";
  order_id = some "o1";
  transaction_id = "T1";
  channel = "SMS";
  customer = customer;
  product = product;
  payment = payment;
  gateway = "lous";
  correlation_id = "c1";
}

-- the row of `sms_message` after some attempts
abbrev pub sms_row : ℕ → DistributionStatus
sms_row attempts = record {
  id = "d1";
  order_id = "o1";
  correlation_id = "c1";
  channel = "SMS";
  status = "pending";
  attempts = attempts;
  next_retry_at = none;
  delivered_at = none;
  lag_db_to_channel_seconds = none;
  error_detail = none;
  updated_at = 50;
}

abbrev pub sms_world : ℕ → World
sms_world attempts = record world {
  tables = record empty_tables { distribution_status = sms_row attempts ∷ [] };
}
