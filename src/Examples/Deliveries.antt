-- ===== src/Examples/Deliveries.antt =====
-- One delivery to one endpoint.
use mailmon.Base.{
  ℕ, ◌+◌, ◌≡◌, refl, true, false, Option, none, some, List, [], ◌∷◌, String_discrete, arith,
}
use mailmon.Base.Table.{find?, update_where}
use mailmon.Base.Texts.{includes}
use mailmon.Contracts.{
  PreparedWebhookDelivery, WebhookDeliverySendFailure, CompletedWebhookDeliveryAttempt,
  ProcessStatus,
}
use mailmon.Delivery.{classify_webhook_delivery_response}
use mailmon.Delivery.Claims.{row_of, prepare-excludes}
use mailmon.Delivery.History.{
  DeliveryCall, prepares, ends, run_calls, run_calls-ended, complete-overtaken, Holds,
}
use mailmon.Delivery.Recovery.{
  WellFormed, by_response, run_calls-WellFormed, recovery_schedule-claimable,
}
use mailmon.Delivery.Rows.{DeliveryState, DeliveryRow, EndpointState, EndpointRow, DeliveryTables}
use mailmon.Delivery.Run.{Sent, responded, RunResult, run_webhook_delivery}
use mailmon.Delivery.Run.Outcomes.{endpoint_of, run-delivers}
use mailmon.Delivery.Store.{
  returned, claimable, has_context, prepare_webhook_delivery_attempt,
  complete_webhook_delivery_attempt, to_webhook_delivery_recovery_schedule,
}

abbrev row_in : DeliveryState → ℕ → Option ℕ → Option ℕ → DeliveryRow
row_in state attempts due started = record {
  id = "d";
  mailbox_event_id = "e";
  webhook_endpoint_id = "p";
  state = state;
  attempt_count = attempts;
  processing_started_at = started;
  last_attempted_at = none;
  next_attempt_at = due;
  delivered_at = none;
  last_response_status = none;
  last_error_code = none;
  last_error_message = none;
  last_error_occurred_at = none;
  last_error_retryable = none;
  created_at = 0;
  updated_at = 0;
}

abbrev pending_row : DeliveryRow
pending_row = row_in DeliveryState.pending 0 (some 0) none

abbrev second_row : DeliveryRow
second_row = row_in DeliveryState.processing 2 none (some 40000)

abbrev pub ended_row : DeliveryRow
ended_row = row_in DeliveryState.delivered 1 none none

abbrev pub endpoint_row : EndpointRow
endpoint_row = record {
  id = "p";
  workspace_id = "w";
  url = "https://p.test/hooks";
  description = none;
  signing_secret = "s";
  delivery_state = EndpointState.healthy;
  last_delivery_at = none;
  last_error_code = none;
  last_error_message = none;
  last_error_occurred_at = none;
  last_error_retryable = none;
  consecutive_delivery_failures = 0;
  created_at = 0;
  updated_at = 0;
}

abbrev pub tables : DeliveryRow → DeliveryTables
tables row = record {
  deliveries = row ∷ [];
  endpoints = endpoint_row ∷ [];
  subscriptions =
      record {
        id = "u";
        workspace_id = "w";
        webhook_endpoint_id = "p";
        mailbox_id = "m";
        event_types = "message.created" ∷ [];
        created_at = 0;
        updated_at = 0;
      }
      ∷ [];
  events =
      record { id = "e"; mailbox_id = "m"; event_type = "message.created"; occurred_at = 0 } ∷ [];
}

abbrev first_attempt : CompletedWebhookDeliveryAttempt
first_attempt =
    (classify_webhook_delivery_response
      (record { delivery_id = "d"; attempt_count = 1; processing_started_at = 5 }) 9 200).completion

abbrev calls : List DeliveryCall
calls = prepares "d" 5 ∷ ends first_attempt ∷ prepares "d" 50000 ∷ []

complete-overtaken_example :
    complete_webhook_delivery_attempt first_attempt (run_calls calls (tables second_row))
    ≡ (returned false, run_calls calls (tables second_row))
unfolding find? String_discrete classify_webhook_delivery_response
complete-overtaken_example =
    complete-overtaken first_attempt calls second_row (tables second_row) (refl, tt) refl
      (omega arith)

run_calls-ended_example : row_of "d" (run_calls calls (tables ended_row)) ≡ some ended_row
unfolding find? String_discrete
run_calls-ended_example = run_calls-ended "d" calls ended_row (tables ended_row) refl refl

prepare-excludes_example :
    let db' = (prepare_webhook_delivery_attempt "d" 5 (tables pending_row)).1 in
    prepare_webhook_delivery_attempt "d" 30004 db' ≡ (returned none, db')
unfolding find? String_discrete has_context includes
prepare-excludes_example =
    prepare-excludes "d" 5 30004 pending_row (tables pending_row) (refl, tt) refl refl refl
      (omega arith)

run_calls-WellFormed_example : Holds WellFormed (row_of "d" (run_calls calls (tables pending_row)))
unfolding find? String_discrete
run_calls-WellFormed_example =
    run_calls-WellFormed "d" calls (tables pending_row) (tt, (by_response _ _ _ refl, (tt, tt)))
      (omega arith, refl)

recovery_schedule-claimable_example :
    (not_before : ℕ) × (to_webhook_delivery_recovery_schedule 70 second_row ≡ some not_before)
    × ((wait : ℕ) → claimable (not_before + wait) second_row ≡ true)
recovery_schedule-claimable_example = recovery_schedule-claimable 70 second_row refl refl

abbrev answer : ℕ → PreparedWebhookDelivery → ℕ → Sent
answer status_code delivery at = responded status_code

abbrev idle : DeliveryTables → DeliveryTables
idle db = db

run-delivers_example :
    let after = run_webhook_delivery (answer 204) idle "d" 5 9 (tables pending_row) in
    (r : DeliveryRow) × (e : EndpointRow) × (out : RunResult) × (after.0 ≡ returned out)
    × (out.result.status ≡ ProcessStatus.delivered)
    × (out.scheduled ≡ [])
    × (row_of "d" after.1 ≡ some r)
    × (r.state ≡ DeliveryState.delivered)
    × (r.delivered_at ≡ some 9)
    × (endpoint_of "p" after.1 ≡ some e)
    × (e.delivery_state ≡ EndpointState.healthy)
    × (e.consecutive_delivery_failures ≡ 0)
unfolding find? String_discrete has_context includes prepare_webhook_delivery_attempt update_where
run-delivers_example =
    run-delivers (answer 204) idle "d" 5 9 204 pending_row endpoint_row (tables pending_row)
      (refl, tt) refl refl refl refl (refl, tt) refl refl (omega arith) (omega arith)

abbrev delivery : PreparedWebhookDelivery
delivery = record { delivery_id = "d"; attempt_count = 5; processing_started_at = 5 }

abbrev failure : WebhookDeliverySendFailure
failure = record { code = "timeout"; message = "Timed out."; retryable = true }
