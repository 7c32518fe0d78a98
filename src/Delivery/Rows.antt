-- ===== src/Delivery/Rows.antt =====
-- The rows of webhook_deliveries, webhook_endpoints, webhook_endpoint_subscriptions and
-- mailbox_events of packages/db/src/schema.ts that the deliveries use.
use mailmon.Base.{ℕ, String, Bool, Option, List, ◌==◌}
use mailmon.Contracts.{AttemptState}

-- webhook_deliveries.state
pub data DeliveryState : Type 0 where
  pending processing delivered failed : DeliveryState

pub record DeliveryRow : Type 0 where
  pub id : String
  pub mailbox_event_id : String
  pub webhook_endpoint_id : String
  pub state : DeliveryState
  pub attempt_count : ℕ
  pub processing_started_at : Option ℕ
  pub last_attempted_at : Option ℕ
  pub next_attempt_at : Option ℕ
  pub delivered_at : Option ℕ
  pub last_response_status : Option ℕ
  pub last_error_code : Option String
  pub last_error_message : Option String
  pub last_error_occurred_at : Option ℕ
  pub last_error_retryable : Option Bool
  pub created_at : ℕ
  pub updated_at : ℕ

-- WebhookEndpointDeliveryStateSchema
pub data EndpointState : Type 0 where
  healthy degraded failing : EndpointState

pub record EndpointRow : Type 0 where
  pub id : String
  pub workspace_id : String
  pub url : String
  pub description : Option String
  pub signing_secret : String
  pub delivery_state : EndpointState
  pub last_delivery_at : Option ℕ
  pub last_error_code : Option String
  pub last_error_message : Option String
  pub last_error_occurred_at : Option ℕ
  pub last_error_retryable : Option Bool
  pub consecutive_delivery_failures : ℕ
  pub created_at : ℕ
  pub updated_at : ℕ

pub record SubscriptionRow : Type 0 where
  pub id : String
  pub workspace_id : String
  pub webhook_endpoint_id : String
  pub mailbox_id : String
  pub event_types : List String
  pub created_at : ℕ
  pub updated_at : ℕ

-- A row of mailbox_events; the payload is only passed on to the endpoint.
pub record EventRow : Type 0 where
  pub id : String
  pub mailbox_id : String
  pub event_type : String
  pub occurred_at : ℕ

pub record DeliveryTables : Type 0 where
  pub deliveries : List DeliveryRow
  pub endpoints : List EndpointRow
  pub subscriptions : List SubscriptionRow
  pub events : List EventRow

abbrev pub delivery_is : String → DeliveryRow → Bool
delivery_is id row = row.id == id

abbrev pub endpoint_is : String → EndpointRow → Bool
endpoint_is id row = row.id == id

abbrev pub event_is : String → EventRow → Bool
event_is id row = row.id == id

-- The state that an attempt's completion writes.
abbrev pub attempt_state : AttemptState → DeliveryState
attempt_state AttemptState.pending = DeliveryState.pending
attempt_state AttemptState.delivered = DeliveryState.delivered
attempt_state AttemptState.failed = DeliveryState.failed
