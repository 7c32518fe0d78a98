-- ===== src/Delivery/Store.antt =====
-- prepareWebhookDeliveryAttempt and completeWebhookDeliveryAttempt of
-- packages/db/src/persistence/webhook-deliveries.ts, and the recovery schedules of
-- webhook-delivery-mappers.ts. A transaction that throws leaves the tables as they were.
use mailmon.Base.{
  ℕ, ◌+◌, String, Bool, true, false, ◌&&◌, Option, none, some, leb, eqb, if◌then◌else◌,
}
use mailmon.Base.Table.{find?, update_where}
use mailmon.Contracts.{PreparedWebhookDelivery, CompletedWebhookDeliveryAttempt, AttemptState}
use mailmon.Delivery.Rows.{
  DeliveryState, DeliveryRow, EndpointState, EndpointRow, DeliveryTables, delivery_is, endpoint_is,
  event_is, attempt_state,
}

-- WEBHOOK_DELIVERY_PROCESSING_TIMEOUT_MS
abbrev pub processing_timeout_ms : ℕ
processing_timeout_ms = 30000

-- lte(nextAttemptAt, attemptedAt)
abbrev pub reached : ℕ → Option ℕ → Bool
reached at none = false
reached at (some due) = leb due at

-- lte(processingStartedAt, staleProcessingCutoff), where the cutoff is 30 s before the attempt.
abbrev pub stale : ℕ → Option ℕ → Bool
stale at none = false
stale at (some started) = leb (started + processing_timeout_ms) at

-- The conditions of the claim on state, due time and start.
abbrev pub claimable_in : DeliveryState → ℕ → Option ℕ → Option ℕ → Bool
claimable_in DeliveryState.pending at next started = reached at next
claimable_in DeliveryState.processing at next started = stale at started
claimable_in _ at next started = false

abbrev pub claimable : ℕ → DeliveryRow → Bool
claimable at row = claimable_in row.state at row.next_attempt_at row.processing_started_at

abbrev pub claim : ℕ → DeliveryRow → DeliveryRow
claim at row = record row {
  attempt_count = row.attempt_count + 1;
  last_attempted_at = some at;
  processing_started_at = some at;
  state = DeliveryState.processing;
  updated_at = at;
}

-- `threw` stands for a transaction that ended in an exception.
pub data Outcome {ℓ} (A : Type ℓ) : Type ℓ where
  returned : A → Outcome A
  threw : Outcome A

-- toPreparedWebhookDelivery of the claimed row, whose start is the time of the claim.
abbrev pub prepared : ℕ → DeliveryRow → PreparedWebhookDelivery
prepared at row = record {
  delivery_id = row.id;
  attempt_count = row.attempt_count + 1;
  processing_started_at = at;
}

-- The inner joins with the endpoint and the event give a row.
unfoldable pub has_context : DeliveryTables → DeliveryRow → Bool
has_context db row = elim (find? (endpoint_is row.webhook_endpoint_id) db.endpoints) [
  | none ↦ false
  | some endpoint ↦ elim (find? (event_is row.mailbox_event_id) db.events) [
    | none ↦ false
    | some event ↦ true
  ]
]

abbrev pub claims : String → ℕ → DeliveryRow → Bool
claims delivery_id at row = delivery_is delivery_id row && claimable at row

unfoldable pub prepare_webhook_delivery_attempt :
    String → ℕ → DeliveryTables → Outcome (Option PreparedWebhookDelivery) × DeliveryTables
prepare_webhook_delivery_attempt delivery_id at db =
    elim (find? (claims delivery_id at) db.deliveries) [
      | none ↦ (returned none, db)
      | some row ↦
          if has_context db row
          then (
            returned (some (prepared at row)),
            record db {
              deliveries = update_where (claims delivery_id at) (claim at) db.deliveries;
            },
          )
          else (threw, db)
    ]

-- The fence of a completion: the row still belongs to this very attempt.
abbrev pub is_processing : DeliveryState → Bool
is_processing DeliveryState.processing = true
is_processing _ = false

abbrev pub started_at : ℕ → Option ℕ → Bool
started_at at none = false
started_at at (some started) = eqb started at

abbrev pub owned_by_attempt : CompletedWebhookDeliveryAttempt → DeliveryRow → Bool
owned_by_attempt attempt row =
    is_processing row.state
    && (eqb row.attempt_count attempt.attempt_count
        && started_at attempt.processing_started_at row.processing_started_at)

abbrev pub completes : CompletedWebhookDeliveryAttempt → DeliveryRow → Bool
completes attempt row = delivery_is attempt.delivery_id row && owned_by_attempt attempt row

abbrev at_if_delivered : AttemptState → ℕ → Option ℕ
at_if_delivered AttemptState.delivered at = some at
at_if_delivered _ at = none

abbrev error_time : Option String → Option String → ℕ → Option ℕ
error_time none none at = none
error_time _ _ at = some at

abbrev next_if_pending : AttemptState → Option ℕ → Option ℕ
next_if_pending AttemptState.pending next = next
next_if_pending _ next = none

abbrev pub finish : CompletedWebhookDeliveryAttempt → DeliveryRow → DeliveryRow
finish attempt row = record row {
  delivered_at = at_if_delivered attempt.state attempt.completed_at;
  last_error_code = attempt.error_code;
  last_error_message = attempt.error_message;
  last_error_occurred_at = error_time attempt.error_code attempt.error_message attempt.completed_at;
  last_error_retryable = attempt.retryable;
  last_response_status = attempt.response_status_code;
  next_attempt_at = next_if_pending attempt.state attempt.next_attempt_at;
  processing_started_at = none;
  state = attempt_state attempt.state;
  updated_at = attempt.completed_at;
}

abbrev endpoint_succeeded : ℕ → EndpointRow → EndpointRow
endpoint_succeeded at endpoint = record endpoint {
  consecutive_delivery_failures = 0;
  delivery_state = EndpointState.healthy;
  last_delivery_at = some at;
  last_error_code = none;
  last_error_message = none;
  last_error_occurred_at = none;
  last_error_retryable = none;
  updated_at = at;
}

-- `failures` is the count that the transaction read, plus one.
abbrev endpoint_failed : CompletedWebhookDeliveryAttempt → ℕ → EndpointRow → EndpointRow
endpoint_failed attempt failures endpoint = record endpoint {
  consecutive_delivery_failures = failures;
  delivery_state = if leb 3 failures then EndpointState.failing else EndpointState.degraded;
  last_delivery_at = some attempt.completed_at;
  last_error_code = attempt.error_code;
  last_error_message = attempt.error_message;
  last_error_occurred_at = some attempt.completed_at;
  last_error_retryable = attempt.retryable;
  updated_at = attempt.completed_at;
}

abbrev pub score_endpoint :
    AttemptState → CompletedWebhookDeliveryAttempt → ℕ → EndpointRow → EndpointRow
score_endpoint AttemptState.delivered attempt failures = endpoint_succeeded attempt.completed_at
score_endpoint _ attempt failures = endpoint_failed attempt failures

unfoldable pub complete_webhook_delivery_attempt :
    CompletedWebhookDeliveryAttempt → DeliveryTables → Outcome Bool × DeliveryTables
complete_webhook_delivery_attempt attempt db = elim (find? (completes attempt) db.deliveries) [
  | none ↦ (returned false, db)
  | some row ↦ elim (find? (endpoint_is row.webhook_endpoint_id) db.endpoints) [
    | none ↦ (threw, db)
    | some endpoint ↦ (
      returned true,
      record db {
        deliveries = update_where (completes attempt) (finish attempt) db.deliveries;
        endpoints =
            update_where (endpoint_is row.webhook_endpoint_id)
              (score_endpoint attempt.state attempt (endpoint.consecutive_delivery_failures + 1))
              db.endpoints;
      },
    )
  ]
]

-- maxIsoTimestamp
abbrev max_timestamp : ℕ → ℕ → ℕ
max_timestamp left right = if leb right left then left else right

abbrev or_created : Option ℕ → ℕ → ℕ
or_created none created_at = created_at
or_created (some at) created_at = at

abbrev schedule_in : DeliveryState → DeliveryRow → ℕ → Option ℕ → Option ℕ → Option ℕ
schedule_in DeliveryState.pending row recovered_at next started =
    some (or_created next row.created_at)
schedule_in DeliveryState.processing row recovered_at next none = none
schedule_in DeliveryState.processing row recovered_at next (some started) =
    some (max_timestamp (started + processing_timeout_ms) recovered_at)
schedule_in _ row recovered_at next started = none

-- toWebhookDeliveryRecoverySchedule: the `notBefore` of the delivery's schedule, if it has one.
unfoldable pub to_webhook_delivery_recovery_schedule : ℕ → DeliveryRow → Option ℕ
to_webhook_delivery_recovery_schedule recovered_at row =
    schedule_in row.state row recovered_at row.next_attempt_at row.processing_started_at
