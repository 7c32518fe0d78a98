-- ===== src/Delivery/Run.antt =====
-- runWebhookDelivery and finalizeWebhookDelivery of
-- packages/core/src/webhook-delivery-execution.ts, with the retry that
-- scheduleWebhookDeliveryRequests of mailbox-event-delivery-scheduling.ts asks for.
-- The sender is a parameter. `meanwhile` is what other workers do to the tables during the send.
pub mod Outcomes
use mailmon.Base.{ℕ, String, Bool, true, false, Option, none, some, List, [], ◌∷◌}
use mailmon.Contracts.{
  PreparedWebhookDelivery, WebhookDeliverySendFailure, CompletedWebhookDeliveryAttempt,
  AttemptState, ProcessStatus, ProcessWebhookDeliveryResult, WebhookDeliveryScheduleRequest,
}
use mailmon.Delivery.{
  ClassifiedAttempt, classify_webhook_delivery_failure, classify_webhook_delivery_response,
}
use mailmon.Delivery.Rows.{DeliveryTables}
use mailmon.Delivery.Store.{
  Outcome, returned, threw, prepare_webhook_delivery_attempt, complete_webhook_delivery_attempt,
}

-- What webhookDeliverySender.send gives: a response with its status code, or a failure.
pub data Sent : Type 0 where
  responded : ℕ → Sent
  failed : WebhookDeliverySendFailure → Sent

-- The result, the deliveries that were scheduled again, and the tables.
pub record RunResult : Type 0 where
  pub result : ProcessWebhookDeliveryResult
  pub scheduled : List WebhookDeliveryScheduleRequest

abbrev noop : String → RunResult
noop delivery_id = record {
  result = record {
    delivery_id = delivery_id;
    status = ProcessStatus.noop;
    attempt_count = none;
    next_attempt_at = none;
  };
  scheduled = [];
}

-- `nextAttemptAt ?? completedAt`
abbrev not_before_of : CompletedWebhookDeliveryAttempt → Option ℕ → ℕ
not_before_of completion none = completion.completed_at
not_before_of completion (some at) = at

abbrev retry_requests :
    AttemptState → CompletedWebhookDeliveryAttempt → List WebhookDeliveryScheduleRequest
retry_requests AttemptState.pending completion =
    record {
      delivery_id = completion.delivery_id;
      not_before = not_before_of completion completion.next_attempt_at;
    }
    ∷ []
retry_requests _ completion = []

-- The failure of the scheduler is ignored (continueOnSchedulingFailure).
abbrev finalized : ClassifiedAttempt → Outcome Bool → Outcome RunResult
finalized c (returned false) = returned (noop c.completion.delivery_id)
finalized c (returned true) =
    returned
      (record { result = c.result; scheduled = retry_requests c.completion.state c.completion })
finalized c threw = threw

unfoldable pub finalize_webhook_delivery :
    ClassifiedAttempt → DeliveryTables → Outcome RunResult × DeliveryTables
finalize_webhook_delivery c db =
    let (applied, db') = complete_webhook_delivery_attempt c.completion db in
    (finalized c applied, db')

abbrev pub classify : PreparedWebhookDelivery → ℕ → Sent → ClassifiedAttempt
classify delivery at (responded status_code) =
    classify_webhook_delivery_response delivery at status_code
classify delivery at (failed failure) = classify_webhook_delivery_failure delivery at failure

module _ (send : PreparedWebhookDelivery → ℕ → Sent)
    (meanwhile : DeliveryTables → DeliveryTables) where
  abbrev pub attempt_prepared :
      String
      → ℕ
      → ℕ
      → Outcome (Option PreparedWebhookDelivery)
      → DeliveryTables
      → Outcome RunResult × DeliveryTables
  attempt_prepared delivery_id attempted_at completed_at threw db = (threw, db)
  attempt_prepared delivery_id attempted_at completed_at (returned none) db =
      (returned (noop delivery_id), db)
  attempt_prepared delivery_id attempted_at completed_at (returned (some delivery)) db =
      finalize_webhook_delivery (classify delivery completed_at (send delivery attempted_at))
        (meanwhile db)

  unfoldable pub run_webhook_delivery :
      String → ℕ → ℕ → DeliveryTables → Outcome RunResult × DeliveryTables
  run_webhook_delivery delivery_id attempted_at completed_at db =
      let (preparation, db') = prepare_webhook_delivery_attempt delivery_id attempted_at db in
      attempt_prepared delivery_id attempted_at completed_at preparation db'
