-- ===== src/Worker/Procedure.antt =====
-- sql/003_stored_procs.sql: `sp_insert_lead`, with the unique indexes of sql/001_create_tables.sql.
-- The procedure is one transaction: here it is a function of the committed tables. The rounding of
-- DECIMAL columns is left out.
pub mod Laws
pub mod Unique
pub mod References
pub mod Channels
pub mod Dispatch
use gex_test_jonatha.Prelude.{
  ℕ, String, Bool, true, false, Option, none, some, List, [], ◌∷◌, ◌++◌, ◌&&◌, not, any, find,
  if◌then◌else◌,
}
use gex_test_jonatha.Common.Config.{
  channel_sms, channel_email, channel_call_center, channel_whatsapp,
}
use gex_test_jonatha.Common.Models.{Time}
use gex_test_jonatha.Common.Library.{Library}
use gex_test_jonatha.World.{Tables, Lead, Order, LeadEvent, Lag, DistributionStatus, same_text}

-- The parameters `p_…`, in their order.
pub record Parameters : Type 0 where
  pub lead_id : String
  pub order_id : String
  pub event_id : String
  pub dist_sms_id : String
  pub dist_email_id : String
  pub dist_callcenter_id : String
  pub dist_whatsapp_id : String
  pub email : String
  pub first_name : String
  pub last_name : Option String
  pub phone : Option String
  pub country : String
  pub gateway : String
  pub transaction_id : String
  pub transaction_time : Time
  pub event : String
  pub product_id : String
  pub product_name : String
  pub product_niche : String
  pub quantity : ℕ
  pub amount_usd : String
  pub payment_method : String
  pub payment_status : String
  pub correlation_id : String
  pub lag_seconds : Lag

-- The row that the procedure selects at its end.
pub record Outcome : Type 0 where
  pub order_id : String
  pub lead_id : String
  pub is_new : Bool

-- `status` of a row that the procedure inserts
abbrev pub pending_status : String
pending_status = "pending"

abbrev pub status_row : String → String → String → String → Time → DistributionStatus
status_row id order_id channel correlation_id now = record {
  id = id;
  order_id = order_id;
  correlation_id = correlation_id;
  channel = channel;
  status = pending_status;
  attempts = 0;
  next_retry_at = none;
  delivered_at = none;
  lag_db_to_channel_seconds = none;
  error_detail = none;
  updated_at = now;
}

module _ (l : Library) where
  -- the UNIQUE indexes
  unfoldable pub is_lead_of : String → Lead → Bool
  is_lead_of email r = same_text l r.email email

  unfoldable pub is_order_of : String → String → Order → Bool
  is_order_of gateway transaction_id r =
      same_text l r.gateway gateway && same_text l r.transaction_id transaction_id

  unfoldable pub is_event_of : String → String → LeadEvent → Bool
  is_event_of order_id event r = same_text l r.order_id order_id && same_text l r.event event

  unfoldable pub is_status_of : String → String → DistributionStatus → Bool
  is_status_of order_id channel r = same_text l r.order_id order_id && same_text l r.channel channel

  -- `SELECT id INTO p_lead_id`: the parameter keeps its value if there is no row
  unfoldable pub resolve_lead : String → String → List Lead → String
  resolve_lead email p_lead_id rs = elim (find (is_lead_of email) rs) [
    | none ↦ p_lead_id
    | some r ↦ r.id
  ]

  -- `SELECT id INTO p_order_id`
  unfoldable pub resolve_order : String → String → String → List Order → String
  resolve_order gateway transaction_id p_order_id rs =
      elim (find (is_order_of gateway transaction_id) rs) [ none ↦ p_order_id | some r ↦ r.id ]

  module _ (p : Parameters) (now : Time) where
    abbrev pub new_lead : Lead
    new_lead = record {
      id = p.lead_id;
      email = p.email;
      first_name = p.first_name;
      last_name = p.last_name;
      phone = p.phone;
      country = p.country;
      created_at = now;
      updated_at = now;
    }

    -- ON DUPLICATE KEY UPDATE of `leads`
    abbrev pub refresh_lead : Lead → Lead
    refresh_lead r = record r {
      first_name = p.first_name;
      last_name = p.last_name;
      phone = p.phone;
      country = p.country;
      updated_at = now;
    }

    unfoldable pub upsert_lead : List Lead → List Lead
    upsert_lead [] = new_lead ∷ []
    upsert_lead (r ∷ rs) = if is_lead_of p.email r then refresh_lead r ∷ rs else r ∷ upsert_lead rs

    abbrev pub new_order : String → Order
    new_order lead_id = record {
      id = p.order_id;
      lead_id = lead_id;
      gateway = p.gateway;
      transaction_id = p.transaction_id;
      transaction_time = p.transaction_time;
      event = p.event;
      product_id = p.product_id;
      product_name = p.product_name;
      product_niche = p.product_niche;
      quantity = p.quantity;
      amount_usd = p.amount_usd;
      payment_method = p.payment_method;
      payment_status = p.payment_status;
      correlation_id = p.correlation_id;
      created_at = now;
    }

    -- ON DUPLICATE KEY UPDATE of `orders`
    abbrev pub refresh_order : Order → Order
    refresh_order r = record r {
      payment_status = p.payment_status;
      amount_usd = p.amount_usd;
      product_id = p.product_id;
      product_name = p.product_name;
      product_niche = p.product_niche;
      quantity = p.quantity;
      payment_method = p.payment_method;
      correlation_id = p.correlation_id;
    }

    unfoldable pub upsert_order : String → List Order → List Order
    upsert_order lead_id [] = new_order lead_id ∷ []
    upsert_order lead_id (r ∷ rs) =
        if is_order_of p.gateway p.transaction_id r
        then refresh_order r ∷ rs
        else r ∷ upsert_order lead_id rs

    abbrev pub new_event : String → LeadEvent
    new_event order_id = record {
      id = p.event_id;
      order_id = order_id;
      correlation_id = p.correlation_id;
      event = p.event;
      gateway_timestamp = p.transaction_time;
      db_timestamp = now;
      lag_seconds = p.lag_seconds;
    }

    -- one row of the INSERT IGNORE
    unfoldable pub insert_status :
        String → String → String → List DistributionStatus → List DistributionStatus
    insert_status id order_id channel rs =
        if any (is_status_of order_id channel) rs
        then rs
        else rs ++ status_row id order_id channel p.correlation_id now ∷ []

    unfoldable pub insert_statuses : String → List DistributionStatus → List DistributionStatus
    unfolding insert_status
    insert_statuses order_id rs = insert_status p.dist_whatsapp_id order_id channel_whatsapp (
        insert_status p.dist_callcenter_id order_id channel_call_center (
          insert_status p.dist_email_id order_id channel_email
            (insert_status p.dist_sms_id order_id channel_sms rs)))

    -- `v_existing_event_count = 0`
    abbrev pub is_new_event : String → Tables → Bool
    is_new_event order_id t = not (any (is_event_of order_id p.event) t.lead_events)

    -- the IF block
    unfoldable pub insert_event : String → Tables → Tables
    unfolding insert_statuses
    insert_event order_id t =
        if is_new_event order_id t
        then record t {
          lead_events = t.lead_events ++ new_event order_id ∷ [];
          distribution_status = insert_statuses order_id t.distribution_status;
        }
        else t

    unfoldable pub sp_insert_lead : Tables → Tables × Outcome
    unfolding upsert_lead upsert_order insert_event resolve_lead resolve_order
    sp_insert_lead t =
        let leads = upsert_lead t.leads in
        let lead_id = resolve_lead p.email p.lead_id leads in
        let orders = upsert_order lead_id t.orders in
        let order_id = resolve_order p.gateway p.transaction_id p.order_id orders in
        let t' = record t { leads = leads; orders = orders } in
        (
          insert_event order_id t',
          record { order_id = order_id; lead_id = lead_id; is_new = is_new_event order_id t' },
        )
