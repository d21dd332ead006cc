-- ===== src/Common/Models.antt =====
-- models.py. A float is carried as its literal, and a time as its microseconds since year 1 UTC.
use gex_test_jonatha.Prelude.{ℕ, String, Option}
use gex_test_jonatha.Json.{Json}

abbrev pub Time : Type 0
Time = ℕ

pub record CustomerData : Type 0 where
  pub email : String
  pub first_name : String
  pub last_name : Option String
  pub phone : Option String
  pub country : String

pub record ProductData : Type 0 where
  pub id : String
  pub name : String
  pub niche : String
  pub quantity : ℕ

-- The literals of `PaymentData.status`.
pub data PaymentStatus : Type 0 where
  approved declined pending refunded : PaymentStatus

abbrev pub status_text : PaymentStatus → String
status_text approved = "approved"
status_text declined = "declined"
status_text pending = "pending"
status_text refunded = "refunded"

pub record PaymentData : Type 0 where
  pub amount_usd : String
  pub method : String
  pub status : PaymentStatus

pub record WebhookPayload : Type 0 where
  pub transaction_id : String
  pub transaction_time : Time
  pub event : String
  pub customer : CustomerData
  pub product : ProductData
  pub payment : PaymentData
  pub gateway : String
  pub correlation_id : String

pub record GrummerEncryptedBody : Type 0 where
  pub iv : String
  pub ciphertext : String

pub record LeadReceivedMessage : Type 0 where
  pub event_id : String
  pub transaction_id : String
  pub transaction_time : Time
  pub event : String
  pub customer : CustomerData
  pub product : ProductData
  pub payment : PaymentData
  pub gateway : String
  pub correlation_id : String

pub record DistributionMessage : Type 0 where
  pub event_id : String
  pub order_id : Option String
  pub transaction_id : String
  pub channel : String
  pub customer : CustomerData
  pub product : ProductData
  pub payment : PaymentData
  pub gateway : String
  pub correlation_id : String

-- `original_payload: dict` keeps the message from being built around any other value.
pub record DlqMessage : Type 0 where
  pub original_payload : Json
  pub error_reason : String
  pub gateway : String
  pub correlation_id : String
  pub queue_origin : String

pub record ProcessingResult : Type 0 where
  pub status : String
  pub correlation_id : String
  pub error_detail : Option String
