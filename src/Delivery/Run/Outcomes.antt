-- ===== src/Delivery/Run/Outcomes.antt =====
-- An attempt from the claim to the completion, when the row stays the worker's during the send.
use mathlib.Core.Option
use mailmon.Base.{
  ℕ, ◌+◌, ◌≤◌, ◌<◌, String, ◌≡◌, ap, refl, ◌∙◌, true, Option, some, [], ◌∷◌, arith, if◌then◌else◌,
  leb,
}
use mailmon.Base.Table.{find?, find?_sound, find?-update_where, update_where}
use mailmon.Contracts.{PreparedWebhookDelivery, CompletedWebhookDeliveryAttempt, ProcessStatus}
use mailmon.Delivery.{
  ClassifiedAttempt, max_attempts, calculate_webhook_delivery_retry_delay_ms,
  classify_webhook_delivery_response,
}
use mailmon.Delivery.Rows.{
  DeliveryState, DeliveryRow, EndpointState, EndpointRow, DeliveryTables, delivery_is, endpoint_is,
}
use mailmon.Delivery.Store.{
  Outcome, returned, claimable, claim, prepared, has_context, finish, completes, score_endpoint,
  prepare_webhook_delivery_attempt, complete_webhook_delivery_attempt,
}
use mailmon.Delivery.Claims.{DeliveryIdsUnique, row_of, completes-found, prepare-result}
use mailmon.Delivery.Run.{
  finalized, Sent, responded, RunResult, finalize_webhook_delivery, run_webhook_delivery,
  retry_requests,
}

abbrev pub endpoint_of : String → DeliveryTables → Option EndpointRow
endpoint_of id db = find? (endpoint_is id) db.endpoints

-- A completion by the attempt that the row belongs to.
complete-owned :
    (attempt : CompletedWebhookDeliveryAttempt) (row : DeliveryRow) (endpoint : EndpointRow)
    (db : DeliveryTables)
    → DeliveryIdsUnique db
    → row_of attempt.delivery_id db ≡ some row
    → completes attempt row ≡ true
    → endpoint_of row.webhook_endpoint_id db ≡ some endpoint
    → let (applied, db') = complete_webhook_delivery_attempt attempt db in
      (applied ≡ returned true)
      × (row_of attempt.delivery_id db' ≡ some (finish attempt row))
      × (endpoint_of row.webhook_endpoint_id db'
          ≡ some (
              score_endpoint attempt.state attempt
                (endpoint.consecutive_delivery_failures + 1)
                endpoint))
unfolding complete_webhook_delivery_attempt
complete-owned attempt row endpoint db u e owned there =
    rw (found, complete_webhook_delivery_attempt)
      (rw there (refl, moved ∙ ground (arith, e, owned), scored ∙ ground (arith, there, named)))
  where
    found : find? (completes attempt) db.deliveries ≡ some row
    found =
        completes-found attempt.delivery_id db u attempt (some row) refl e ∙ ground (arith, owned)

    moved :
        find?
          (delivery_is attempt.delivery_id)
          (update_where (completes attempt) (finish attempt) db.deliveries)
        ≡ Option.map
            (λ r. if completes attempt r then finish attempt r else r)
            (row_of attempt.delivery_id db)
    moved =
        find?-update_where (completes attempt) (delivery_is attempt.delivery_id) (finish attempt)
          db.deliveries (λ r. refl)

    named : endpoint_is row.webhook_endpoint_id endpoint ≡ true
    named = find?_sound (endpoint_is row.webhook_endpoint_id) db.endpoints endpoint there

    score : EndpointRow → EndpointRow
    score = score_endpoint attempt.state attempt (endpoint.consecutive_delivery_failures + 1)

    scored :
        find?
          (endpoint_is row.webhook_endpoint_id)
          (update_where (endpoint_is row.webhook_endpoint_id) score db.endpoints)
        ≡ Option.map
            (λ r. if endpoint_is row.webhook_endpoint_id r then score r else r)
            (endpoint_of row.webhook_endpoint_id db)
    scored =
        find?-update_where (endpoint_is row.webhook_endpoint_id)
          (endpoint_is row.webhook_endpoint_id) score db.endpoints (λ r. ground arith)

-- The worker claims a delivery, sends it, and finds the row as it left it.
module _ (send : PreparedWebhookDelivery → ℕ → Sent) (meanwhile : DeliveryTables → DeliveryTables)
    (id : String) (at done status_code : ℕ) (row : DeliveryRow) (endpoint : EndpointRow)
    (db : DeliveryTables) (unique : DeliveryIdsUnique db) (there : row_of id db ≡ some row)
    (due : claimable at row ≡ true) (joined : has_context db row ≡ true)
    (answered : send (prepared at row) at ≡ responded status_code)
    (unique_after : DeliveryIdsUnique (meanwhile (prepare_webhook_delivery_attempt id at db).1))
    (undisturbed : row_of id (meanwhile (prepare_webhook_delivery_attempt id at db).1)
      ≡ some (claim at row))
    (endpoint_there : endpoint_of row.webhook_endpoint_id
        (meanwhile (prepare_webhook_delivery_attempt id at db).1)
      ≡ some endpoint) where
  abbrev after_run : Outcome RunResult × DeliveryTables
  after_run = run_webhook_delivery send meanwhile id at done db

  verdict : ClassifiedAttempt
  verdict = classify_webhook_delivery_response (prepared at row) done status_code

  claimed : DeliveryTables
  claimed = meanwhile (prepare_webhook_delivery_attempt id at db).1

  run-finalizes : after_run ≡ finalize_webhook_delivery verdict claimed
  unfolding run_webhook_delivery verdict claimed
  run-finalizes = rw preparation (rw answered refl)
    where
      preparation :
          (prepare_webhook_delivery_attempt id at db).0 ≡ returned (some (prepared at row))
      preparation = prepare-result id db unique at row there ∙ ground (arith, due, joined)

  verdict-identity :
      (verdict.completion.delivery_id ≡ row.id)
      × (verdict.completion.attempt_count ≡ row.attempt_count + 1)
      × (verdict.completion.processing_started_at ≡ at)
  unfolding verdict classify_webhook_delivery_response
  verdict-identity = ground arith

  row-named : row.id ≡ id
  row-named = ground (arith, find?_sound (delivery_is id) db.deliveries row there)

  run-applied :
      (after_run.0
        ≡ returned (record {
          result = verdict.result;
          scheduled = retry_requests verdict.completion.state verdict.completion;
        }))
      × (row_of id after_run.1 ≡ some (finish verdict.completion (claim at row)))
      × (endpoint_of row.webhook_endpoint_id after_run.1
          ≡ some (
              score_endpoint verdict.completion.state verdict.completion
                (endpoint.consecutive_delivery_failures + 1)
                endpoint))
  unfolding finalize_webhook_delivery
  run-applied =
      rw run-finalizes (ap (finalized verdict) completed.0, rw same at row_after, completed.2)
    where
      same : verdict.completion.delivery_id ≡ id
      same = verdict-identity.0 ∙ row-named

      owned : completes verdict.completion (claim at row) ≡ true
      owned = ground (arith, verdict-identity)

      completed :
          let (applied, db') = complete_webhook_delivery_attempt verdict.completion claimed in
          (applied ≡ returned true)
          × (row_of verdict.completion.delivery_id db'
              ≡ some (finish verdict.completion (claim at row)))
          × (endpoint_of row.webhook_endpoint_id db'
              ≡ some (
                  score_endpoint verdict.completion.state verdict.completion
                    (endpoint.consecutive_delivery_failures + 1)
                    endpoint))
      completed =
          complete-owned verdict.completion (claim at row) endpoint claimed
            (unfold claimed in unique_after) (rw same (unfold claimed in undisturbed)) owned
            (unfold claimed in endpoint_there)

      row_after :
          row_of verdict.completion.delivery_id
            (complete_webhook_delivery_attempt verdict.completion claimed).1
          ≡ some (finish verdict.completion (claim at row))
      row_after = completed.1

  -- Suppose a worker claims a due delivery, its row, its endpoint and the uniqueness of the ids
  -- outlast the send, and the endpoint answers with a 2xx status. Then the run reports `delivered`
  -- and schedules nothing, the row is delivered, and the endpoint is healthy with no failures.
  pub run-delivers :
      200 ≤ status_code
      → status_code < 300
      → (r : DeliveryRow) × (e : EndpointRow) × (out : RunResult) × (after_run.0 ≡ returned out)
        × (out.result.status ≡ ProcessStatus.delivered)
        × (out.scheduled ≡ [])
        × (row_of id after_run.1 ≡ some r)
        × (r.state ≡ DeliveryState.delivered)
        × (r.delivered_at ≡ some done)
        × (endpoint_of row.webhook_endpoint_id after_run.1 ≡ some e)
        × (e.delivery_state ≡ EndpointState.healthy)
        × (e.consecutive_delivery_failures ≡ 0)
  unfolding verdict classify_webhook_delivery_response
  run-delivers low high = (
    finish verdict.completion (claim at row),
    score_endpoint verdict.completion.state verdict.completion
        (endpoint.consecutive_delivery_failures + 1) endpoint,
    record {
      result = verdict.result;
      scheduled = retry_requests verdict.completion.state verdict.completion;
    },
    run-applied.0,
    ground arith,
    ground arith,
    run-applied.1,
    ground arith,
    ground arith,
    run-applied.2,
    ground arith,
    ground arith,
  )

  -- Under the same conditions an answer of 500 or more to one of the first four attempts makes the
  -- delivery pending until the retry delay is over, schedules it for that very time, and counts one
  -- more failure of the endpoint, which is failing from the third failure in a row on.
  pub run-retries :
      500 ≤ status_code
      → row.attempt_count + 1 < max_attempts
      → let next = done + calculate_webhook_delivery_retry_delay_ms (row.attempt_count + 1) in
        let failures = endpoint.consecutive_delivery_failures + 1 in
        (r : DeliveryRow) × (e : EndpointRow) × (out : RunResult) × (after_run.0 ≡ returned out)
        × (out.result.status ≡ ProcessStatus.scheduled_for_retry)
        × (out.scheduled ≡ record { delivery_id = id; not_before = next } ∷ [])
        × (row_of id after_run.1 ≡ some r)
        × (r.state ≡ DeliveryState.pending)
        × (r.next_attempt_at ≡ some next)
        × (endpoint_of row.webhook_endpoint_id after_run.1 ≡ some e)
        × (e.delivery_state
            ≡ (if leb 3 failures then EndpointState.failing else EndpointState.degraded))
        × (e.consecutive_delivery_failures ≡ failures)
  unfolding verdict classify_webhook_delivery_response
  run-retries server_error early = (
    finish verdict.completion (claim at row),
    score_endpoint verdict.completion.state verdict.completion
        (endpoint.consecutive_delivery_failures + 1) endpoint,
    record {
      result = verdict.result;
      scheduled = retry_requests verdict.completion.state verdict.completion;
    },
    run-applied.0,
    ground arith,
    ground (arith, row-named),
    run-applied.1,
    ground arith,
    ground arith,
    run-applied.2,
    ground arith,
    ground arith,
  )
