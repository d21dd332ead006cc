-- ===== src/Common/Config.antt =====
-- config.py of gex_common: `CONSTANTS`, and the settings that the code reads.
use gex_test_jonatha.Prelude.{ℕ, String, Bool, List, [], ◌∷◌, any, ◌==◌}

-- queues
abbrev pub queue_lead_received : String
queue_lead_received = "lead.received"

abbrev pub queue_dlq_decrypt_failed : String
queue_dlq_decrypt_failed = "lead.dead.decrypt_failed"

abbrev pub queue_dlq_schema_failed : String
queue_dlq_schema_failed = "lead.dead.schema_failed"

abbrev pub queue_dlq_consumer_failed : String
queue_dlq_consumer_failed = "lead.dead.consumer_failed"

abbrev pub queue_dist_sms : String
queue_dist_sms = "dist.sms"

abbrev pub queue_dist_email : String
queue_dist_email = "dist.email"

abbrev pub queue_dist_callcenter : String
queue_dist_callcenter = "dist.callcenter"

abbrev pub queue_dist_whatsapp : String
queue_dist_whatsapp = "dist.whatsapp"

abbrev pub queue_dist_dlq_sms : String
queue_dist_dlq_sms = "dist.dead.sms"

-- gateways
abbrev pub gateway_grummer : String
gateway_grummer = "grummer"

abbrev pub gateway_lous : String
gateway_lous = "lous"

-- events and payment
abbrev pub event_order_approved : String
event_order_approved = "order.approved"

abbrev pub payment_approved : String
payment_approved = "approved"

-- channels
abbrev pub channel_sms : String
channel_sms = "SMS"

abbrev pub channel_email : String
channel_email = "EMAIL"

abbrev pub channel_call_center : String
channel_call_center = "CALL_CENTER"

abbrev pub channel_whatsapp : String
channel_whatsapp = "WHATSAPP"

-- lead status
abbrev pub status_accepted : String
status_accepted = "accepted"

abbrev pub status_decrypt_failed : String
status_decrypt_failed = "decrypt_failed"

abbrev pub status_schema_failed : String
status_schema_failed = "schema_failed"

abbrev pub status_duplicate : String
status_duplicate = "duplicate"

abbrev pub status_discarded_non_approved : String
status_discarded_non_approved = "discarded_non_approved"

-- distribution status and retry
abbrev pub dist_status_delivered : String
dist_status_delivered = "delivered"

abbrev pub dist_status_failed : String
dist_status_failed = "failed"

abbrev pub retry_backoffs_ms : List ℕ
retry_backoffs_ms = 1000 ∷ 4000 ∷ 16000 ∷ []

-- The property `valid_gateways`, a set of two.
abbrev pub valid_gateways : List String
valid_gateways = gateway_grummer ∷ gateway_lous ∷ []

abbrev pub all_channels : List String
all_channels = channel_sms ∷ channel_email ∷ channel_call_center ∷ channel_whatsapp ∷ []

-- `g in valid_gateways`
abbrev pub is_valid_gateway : String → Bool
is_valid_gateway g = any (λ v. v == g) valid_gateways

-- The fields of `AppSettings` that change what the code does. `sms_failure_rate` is a float that
-- is only compared with a random number: the outcome of that test is an input of the worker.
pub record AppSettings : Type 0 where
  pub grummer_secret_hex : String
  pub webhook_site_url : String
  pub distributor_max_retries : ℕ
  pub log_level : String

-- The defaults.
abbrev pub default_settings : AppSettings
default_settings = record {
  grummer_secret_hex = "";
  webhook_site_url = "";
  distributor_max_retries = 3;
  log_level = "INFO";
}
