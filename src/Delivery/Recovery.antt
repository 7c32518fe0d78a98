-- ===== src/Delivery/Recovery.antt =====
-- The invariant of a delivery's row, and the recovery of schedules that were lost.
use mailmon.Base.{
  ℕ, ◌+◌, ◌<◌, String, ◌≡◌, Option-cases, inl, inr, Bool, true, false, Option, none, some, List,
  arith, All,
}
use mailmon.Contracts.{
  PreparedWebhookDelivery, WebhookDeliverySendFailure, CompletedWebhookDeliveryAttempt,
}
use mailmon.Delivery.{
  max_attempts, classify_webhook_delivery_failure, classify_webhook_delivery_response,
}
use mailmon.Delivery.Rows.{DeliveryState, DeliveryRow, DeliveryTables}
use mailmon.Delivery.Store.{claimable, to_webhook_delivery_recovery_schedule}
use mailmon.Delivery.Claims.{row_of}
use mailmon.Delivery.History.{
  DeliveryCall, prepares, ends, run_calls, changed, Holds, Holds-run, has_ended,
}

abbrev is_set : Option ℕ → Bool
is_set none = false
is_set (some at) = true

-- A pending delivery has a due time and attempts left; a processing one has a start.
abbrev WellFormedIn : DeliveryState → ℕ → Option ℕ → Option ℕ → Type 0
WellFormedIn DeliveryState.pending count next started =
    (count < max_attempts) × (is_set next ≡ true)
WellFormedIn DeliveryState.processing count next started = is_set started ≡ true
WellFormedIn _ count next started = Unit

abbrev pub WellFormed : DeliveryRow → Type 0
WellFormed row =
    WellFormedIn row.state row.attempt_count row.next_attempt_at row.processing_started_at

-- The completions that the program sends: those that the classification of an attempt gave.
pub data Classified : CompletedWebhookDeliveryAttempt → Type 0 where
  by_failure :
      (delivery : PreparedWebhookDelivery) (at : ℕ) (failure : WebhookDeliverySendFailure)
      {attempt : CompletedWebhookDeliveryAttempt}
      → attempt ≡ (classify_webhook_delivery_failure delivery at failure).completion
      → Classified attempt
  by_response :
      (delivery : PreparedWebhookDelivery) (at status_code : ℕ)
      {attempt : CompletedWebhookDeliveryAttempt}
      → attempt ≡ (classify_webhook_delivery_response delivery at status_code).completion
      → Classified attempt

abbrev pub OfTheProgram : DeliveryCall → Type 0
OfTheProgram (prepares id at) = Unit
OfTheProgram (ends attempt) = Classified attempt

changed-WellFormed :
    (call : DeliveryCall) (row : DeliveryRow)
    → OfTheProgram call
    → WellFormed row
    → WellFormed (changed call row)
unfolding changed classify_webhook_delivery_failure classify_webhook_delivery_response
changed-WellFormed (prepares id at) row q h = ground arith
changed-WellFormed (ends attempt) row (by_failure delivery at failure e) h = rw e (ground arith)
changed-WellFormed (ends attempt) row (by_response delivery at status_code e) h =
    rw e (ground arith)

-- If a delivery is well formed, then whatever the workers claim, and complete with the attempts that
-- the classification gives, it stays so: a pending delivery keeps a due time and fewer than five
-- attempts, and a processing one keeps the time of its claim.
pub run_calls-WellFormed :
    (id : String) (calls : List DeliveryCall) (db : DeliveryTables)
    → All OfTheProgram calls
    → Holds WellFormed (row_of id db)
    → Holds WellFormed (row_of id (run_calls calls db))
run_calls-WellFormed = Holds-run WellFormed OfTheProgram changed-WellFormed

-- Every unfinished delivery that is well formed gets a recovery schedule, and from its time on the
-- delivery can be claimed: no schedule is too early to work.
pub recovery_schedule-claimable :
    (recovered_at : ℕ) (row : DeliveryRow)
    → WellFormed row
    → has_ended row.state ≡ false
    → (not_before : ℕ) × (to_webhook_delivery_recovery_schedule recovered_at row ≡ some not_before)
      × ((wait : ℕ) → claimable (not_before + wait) row ≡ true)
unfolding to_webhook_delivery_recovery_schedule
recovery_schedule-claimable recovered_at row h unfinished =
    elim (Option-cases (to_webhook_delivery_recovery_schedule recovered_at row)) [
      | inl e ↦ absurd (ground (arith, e))
      | inr (not_before, e) ↦ (not_before, e, λ wait. ground (arith, e))
    ]
