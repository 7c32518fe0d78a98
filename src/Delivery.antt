-- ===== src/Delivery.antt =====
-- packages/core/src/webhook-delivery-execution.ts: what becomes of an attempt to deliver a webhook.
pub mod Backoff
pub mod Rows
pub mod Store
pub mod Claims
pub mod History
pub mod Creation
pub mod Recovery
pub mod Run
use Prim.Native.String
use mailmon.Base.{
  ℕ, ◌+◌, ◌-◌, ◌*◌, ◌^◌, min, String, Bool, true, false, not, ◌&&◌, Option, none, some, leb, ltb,
  if◌then◌else◌,
}
use mailmon.Base.Decimal.{decimal}
use mailmon.Contracts.{
  PreparedWebhookDelivery, WebhookDeliverySendFailure, CompletedWebhookDeliveryAttempt,
  AttemptState, ProcessStatus, ProcessWebhookDeliveryResult,
}

-- DEFAULT_WEBHOOK_DELIVERY_MAX_ATTEMPTS
abbrev pub max_attempts : ℕ
max_attempts = 5

-- DEFAULT_WEBHOOK_DELIVERY_RETRY_DELAY_MS
abbrev pub retry_delay_ms : ℕ
retry_delay_ms = 5000

-- MAX_WEBHOOK_DELIVERY_RETRY_DELAY_MS
abbrev pub max_retry_delay_ms : ℕ
max_retry_delay_ms = 15 * 60000

-- `attemptCount - 1` stops at 0, as `Math.max(0, attemptCount - 1)` does.
unfoldable pub calculate_webhook_delivery_retry_delay_ms : ℕ → ℕ
calculate_webhook_delivery_retry_delay_ms attempt_count =
    min max_retry_delay_ms (retry_delay_ms * 2 ^ (attempt_count - 1))

-- `${prefix}${n}${suffix}`
abbrev with_number : String → ℕ → String → String
with_number prefix n suffix = String.◌++◌ prefix (String.◌++◌ (decimal n) suffix)

-- ClassifiedWebhookDeliveryAttempt
pub record ClassifiedAttempt : Type 0 where
  pub completion : CompletedWebhookDeliveryAttempt
  pub result : ProcessWebhookDeliveryResult

-- The outcome that schedules another attempt.
retry_later : PreparedWebhookDelivery → ℕ → Option ℕ → String → String → ClassifiedAttempt
retry_later delivery completed_at response_status code message =
    let next = completed_at + calculate_webhook_delivery_retry_delay_ms delivery.attempt_count in
    record {
      completion = record {
        delivery_id = delivery.delivery_id;
        attempt_count = delivery.attempt_count;
        processing_started_at = delivery.processing_started_at;
        state = AttemptState.pending;
        completed_at = completed_at;
        next_attempt_at = some next;
        response_status_code = response_status;
        error_code = some code;
        error_message = some message;
        retryable = some true;
      };
      result = record {
        delivery_id = delivery.delivery_id;
        status = ProcessStatus.scheduled_for_retry;
        attempt_count = some delivery.attempt_count;
        next_attempt_at = some next;
      };
    }

-- The outcome that gives the delivery up, after its last retry or at once.
give_up :
    PreparedWebhookDelivery
    → ℕ
    → Bool
    → Option ℕ
    → String
    → String
    → String
    → Bool
    → ClassifiedAttempt
give_up delivery completed_at retry_exhausted response_status code exhausted_message message
      retryable =
    record {
      completion = record {
        delivery_id = delivery.delivery_id;
        attempt_count = delivery.attempt_count;
        processing_started_at = delivery.processing_started_at;
        state = AttemptState.failed;
        completed_at = completed_at;
        next_attempt_at = none;
        response_status_code = response_status;
        error_code = some (if retry_exhausted then "webhook_delivery_retry_exhausted" else code);
        error_message = some (if retry_exhausted then exhausted_message else message);
        retryable = some (if retry_exhausted then false else retryable);
      };
      result = record {
        delivery_id = delivery.delivery_id;
        status = if retry_exhausted then ProcessStatus.retry_exhausted else ProcessStatus.failed;
        attempt_count = some delivery.attempt_count;
        next_attempt_at = none;
      };
    }

exhausted_text : ℕ → String → String
exhausted_text attempts cause =
    String.◌++◌
      (with_number "Webhook delivery exhausted application retries after " attempts " attempts. ")
      cause

unfoldable pub classify_webhook_delivery_failure :
    PreparedWebhookDelivery → ℕ → WebhookDeliverySendFailure → ClassifiedAttempt
unfolding retry_later give_up exhausted_text
classify_webhook_delivery_failure delivery completed_at failure =
    let retry_exhausted = failure.retryable && leb max_attempts delivery.attempt_count in
    if failure.retryable && not retry_exhausted
    then retry_later delivery completed_at none failure.code failure.message
    else give_up delivery completed_at retry_exhausted none failure.code
        (exhausted_text delivery.attempt_count (String.◌++◌ "Last failure: " failure.message))
        failure.message failure.retryable

delivered : PreparedWebhookDelivery → ℕ → ℕ → ClassifiedAttempt
delivered delivery completed_at status_code = record {
  completion = record {
    delivery_id = delivery.delivery_id;
    attempt_count = delivery.attempt_count;
    processing_started_at = delivery.processing_started_at;
    state = AttemptState.delivered;
    completed_at = completed_at;
    next_attempt_at = none;
    response_status_code = some status_code;
    error_code = none;
    error_message = none;
    retryable = none;
  };
  result = record {
    delivery_id = delivery.delivery_id;
    status = ProcessStatus.delivered;
    attempt_count = some delivery.attempt_count;
    next_attempt_at = none;
  };
}

unfoldable pub classify_webhook_delivery_response :
    PreparedWebhookDelivery → ℕ → ℕ → ClassifiedAttempt
unfolding retry_later give_up exhausted_text delivered
classify_webhook_delivery_response delivery completed_at status_code =
    let code = with_number "webhook_endpoint_http_" status_code "" in
    let message = with_number "Webhook endpoint responded with HTTP " status_code "." in
    let server_error = leb 500 status_code in
    let retry_exhausted = server_error && leb max_attempts delivery.attempt_count in
    if leb 200 status_code && ltb status_code 300
    then delivered delivery completed_at status_code
    else if server_error && not retry_exhausted
    then retry_later delivery completed_at (some status_code) code message
    else give_up delivery completed_at retry_exhausted (some status_code) code
        (exhausted_text delivery.attempt_count (with_number "Last response: HTTP " status_code "."))
        message server_error
