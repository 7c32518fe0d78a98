-- ===== src/Delivery/Backoff.antt =====
-- Bounds of the retry delay, and when an attempt is retried.
use mailmon.Base.{ℕ, suc, ◌+◌, ◌*◌, ◌-◌, ◌^◌, ◌≤◌, ◌<◌, min, ◌≡◌, ◌↔◌, ◌≢◌, true, some, arith}
use native.Mathlib.Nat.{two-pow-succ, one-le-pow}
use mailmon.Contracts.{
  PreparedWebhookDelivery, WebhookDeliverySendFailure, AttemptState, ProcessStatus,
}
use mailmon.Delivery.{
  max_attempts, max_retry_delay_ms, retry_delay_ms, calculate_webhook_delivery_retry_delay_ms,
  classify_webhook_delivery_failure, classify_webhook_delivery_response,
}

abbrev delay : ℕ → ℕ
delay = calculate_webhook_delivery_retry_delay_ms

suc-sub-one : (n : ℕ) → suc n - 1 ≡ n
suc-sub-one n = omega arith

-- With the exponent named, the delay is linear in the power.
capped : ℕ → ℕ
capped power = min max_retry_delay_ms (retry_delay_ms * power)

delay-suc : (n : ℕ) → delay (suc n) ≡ capped (2 ^ n)
unfolding calculate_webhook_delivery_retry_delay_ms capped
delay-suc n = rw suc-sub-one

-- The delay is five seconds after the first attempt, and doubles with each attempt up to the cap of
-- fifteen minutes; it lies between the two, and never falls.
pub delay_doubles :
    (n : ℕ)
    → (delay 1 ≡ retry_delay_ms)
      × (delay (suc (suc n)) ≡ min max_retry_delay_ms (2 * delay (suc n)))
      × (retry_delay_ms ≤ delay (suc n))
      × (delay (suc n) ≤ max_retry_delay_ms)
      × (delay (suc n) ≤ delay (suc (suc n)))
unfolding capped calculate_webhook_delivery_retry_delay_ms
delay_doubles n = simp delay-suc (omega (arith, two-pow-succ n, one-le-pow n 2 (omega arith)))

module _ (delivery : PreparedWebhookDelivery) (completed_at : ℕ) where
  -- A failed send is retried exactly when it is retryable and fewer than five attempts were made,
  -- and then waits for the delay of this attempt; otherwise the delivery fails for good, and is
  -- reported exhausted exactly when it was retryable.
  pub classify_failure-retry_iff :
      (failure : WebhookDeliverySendFailure)
      → let c = classify_webhook_delivery_failure delivery completed_at failure in
        ((c.completion.state ≡ AttemptState.pending)
          ↔ ((failure.retryable ≡ true) × (delivery.attempt_count < max_attempts)))
        × ((c.completion.next_attempt_at ≡ some (completed_at + delay delivery.attempt_count))
            ↔ (c.completion.state ≡ AttemptState.pending))
        × ((c.result.status ≡ ProcessStatus.retry_exhausted)
            ↔ ((failure.retryable ≡ true) × (max_attempts ≤ delivery.attempt_count)))
        × (c.completion.state ≢ AttemptState.delivered)
  unfolding classify_webhook_delivery_failure
  classify_failure-retry_iff failure = ground arith

  -- A response counts as delivered exactly when its status is 2xx. It is retried exactly when its
  -- status is 500 or more and fewer than five attempts were made, and reported exhausted exactly
  -- when its status is 500 or more and five were made.
  pub classify_response-retry_iff :
      (status_code : ℕ)
      → let c = classify_webhook_delivery_response delivery completed_at status_code in
        ((c.completion.state ≡ AttemptState.delivered)
          ↔ ((200 ≤ status_code) × (status_code < 300)))
        × ((c.completion.state ≡ AttemptState.pending)
            ↔ ((500 ≤ status_code) × (delivery.attempt_count < max_attempts)))
        × ((c.result.status ≡ ProcessStatus.retry_exhausted)
            ↔ ((500 ≤ status_code) × (max_attempts ≤ delivery.attempt_count)))
        × (c.result.next_attempt_at ≡ c.completion.next_attempt_at)
  unfolding classify_webhook_delivery_response
  classify_response-retry_iff status_code = ground arith
