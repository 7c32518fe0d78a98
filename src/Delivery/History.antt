-- ===== src/Delivery/History.antt =====
-- What no sequence of claims and completions, by any number of workers, can do to a delivery.
use mathlib.Core.Option
use mailmon.Base.{
  ℕ, ◌<◌, String, ◌≡◌, ap, refl, Bool, true, false, Option, none, some, List, [], ◌∷◌, arith, All,
  ◌⊎◌, inl, inr, Option-cases, Bool-cases, if◌then◌else◌,
}
use mailmon.Base.Table.{update_where-KeyUnique, find?, find?-update_where}
use mailmon.Contracts.{CompletedWebhookDeliveryAttempt}
use mailmon.Delivery.Rows.{DeliveryState, DeliveryRow, DeliveryTables, delivery_is, endpoint_is}
use mailmon.Delivery.Store.{
  returned, claim, claims, has_context, prepare_webhook_delivery_attempt, completes, finish,
  complete_webhook_delivery_attempt,
}
use mailmon.Delivery.Claims.{DeliveryIdsUnique, row_of, prepare-DeliveryIdsUnique, complete-unowned}

pub data DeliveryCall : Type 0 where
  prepares : String → ℕ → DeliveryCall
  ends : CompletedWebhookDeliveryAttempt → DeliveryCall

unfoldable pub step : DeliveryCall → DeliveryTables → DeliveryTables
step (prepares id at) db = (prepare_webhook_delivery_attempt id at db).1
step (ends attempt) db = (complete_webhook_delivery_attempt attempt db).1

unfoldable pub run_calls : List DeliveryCall → DeliveryTables → DeliveryTables
run_calls [] db = db
run_calls (call ∷ calls) db = run_calls calls (step call db)

-- What a call that takes effect does to each row.
unfoldable pub changed : DeliveryCall → DeliveryRow → DeliveryRow
changed (prepares id at) row = if claims id at row then claim at row else row
changed (ends attempt) row = if completes attempt row then finish attempt row else row

step-rows :
    (call : DeliveryCall) (db : DeliveryTables)
    → ((step call db).deliveries ≡ db.deliveries)
      ⊎ ((id : String) → row_of id (step call db) ≡ Option.map (changed call) (row_of id db))
unfolding step changed prepare_webhook_delivery_attempt complete_webhook_delivery_attempt
step-rows (prepares id at) db = elim (Option-cases (find? (claims id at) db.deliveries)) [
  | inl e ↦ rw (e, step, prepare_webhook_delivery_attempt) (inl refl)
  | inr (row, e) ↦ elim (Bool-cases (has_context db row)) [
    | inl joined ↦
        rw (e, step, prepare_webhook_delivery_attempt)
          (rw joined (
            inr λ j.
              find?-update_where (claims id at) (delivery_is j) (claim at) db.deliveries
                (λ r. refl)))
    | inr alone ↦ rw (e, step, prepare_webhook_delivery_attempt) (rw alone (inl refl))
  ]
]
step-rows (ends attempt) db = elim (Option-cases (find? (completes attempt) db.deliveries)) [
  | inl e ↦ rw (e, step, complete_webhook_delivery_attempt) (inl refl)
  | inr (row, e) ↦ elim (Option-cases (find? (endpoint_is row.webhook_endpoint_id) db.endpoints)) [
    | inl missing ↦ rw (e, step, complete_webhook_delivery_attempt) (rw missing (inl refl))
    | inr (endpoint, found) ↦
        rw (e, step, complete_webhook_delivery_attempt)
          (rw found (
            inr λ j.
              find?-update_where (completes attempt) (delivery_is j) (finish attempt) db.deliveries
                (λ r. refl)))
  ]
]

step-DeliveryIdsUnique :
    (call : DeliveryCall) (db : DeliveryTables)
    → DeliveryIdsUnique db
    → DeliveryIdsUnique (step call db)
unfolding step complete_webhook_delivery_attempt
step-DeliveryIdsUnique (prepares id at) db u = prepare-DeliveryIdsUnique id at db u
step-DeliveryIdsUnique (ends attempt) db u =
    elim (Option-cases (find? (completes attempt) db.deliveries)) [
      | inl e ↦ rw (e, step, complete_webhook_delivery_attempt) u
      | inr (row, e) ↦
          elim (Option-cases (find? (endpoint_is row.webhook_endpoint_id) db.endpoints)) [
            | inl missing ↦ rw (e, step, complete_webhook_delivery_attempt) (rw missing u)
            | inr (endpoint, found) ↦
                rw (e, step, complete_webhook_delivery_attempt)
                  (rw found (
                    update_where-KeyUnique (λ (r : DeliveryRow). r.id) (completes attempt)
                      (finish attempt) db.deliveries (λ r. refl) u))
          ]
    ]

abbrev pub Holds : (P : DeliveryRow → Type 0) → Option DeliveryRow → Type 0
Holds P none = ⊥
Holds P (some row) = P row

-- A property of a row that every call of a kind keeps holds after any calls of that kind.
module _ (P : DeliveryRow → Type 0) (Q : DeliveryCall → Type 0)
    (keep : (call : DeliveryCall) (row : DeliveryRow) → Q call → P row → P (changed call row)) where
  Holds-map :
      (call : DeliveryCall) (o : Option DeliveryRow)
      → Q call
      → Holds P o
      → Holds P (Option.map (changed call) o)
  Holds-map call none q h = h
  Holds-map call (some row) q h = keep call row q h

  pub Holds-run :
      (id : String) (calls : List DeliveryCall) (db : DeliveryTables)
      → All Q calls
      → Holds P (row_of id db)
      → Holds P (row_of id (run_calls calls db))
  unfolding run_calls
  Holds-run id [] db q h = h
  Holds-run id (call ∷ calls) db (q, qs) h =
      Holds-run id calls (step call db) qs (elim (step-rows call db) [
        | inl same ↦ rw same h
        | inr moved ↦ rw (moved id) (Holds-map call (row_of id db) q h)
      ])

abbrev AnyCall : DeliveryCall → Type 0
AnyCall call = Unit

any_calls : (calls : List DeliveryCall) → All AnyCall calls
any_calls [] = tt
any_calls (call ∷ calls) = (tt, any_calls calls)

abbrev pub has_ended : DeliveryState → Bool
has_ended DeliveryState.delivered = true
has_ended DeliveryState.failed = true
has_ended _ = false

run-DeliveryIdsUnique :
    (calls : List DeliveryCall) (db : DeliveryTables)
    → DeliveryIdsUnique db
    → DeliveryIdsUnique (run_calls calls db)
unfolding run_calls
run-DeliveryIdsUnique [] db u = u
run-DeliveryIdsUnique (call ∷ calls) db u =
    run-DeliveryIdsUnique calls (step call db) (step-DeliveryIdsUnique call db u)

changed-ended :
    (call : DeliveryCall) (row : DeliveryRow) → has_ended row.state ≡ true → changed call row ≡ row
unfolding changed
changed-ended (prepares id at) row ended = ground arith
changed-ended (ends attempt) row ended = ground arith

changed-count :
    (n : ℕ) (call : DeliveryCall) (row : DeliveryRow)
    → n < row.attempt_count
    → n < (changed call row).attempt_count
unfolding changed
changed-count n (prepares id at) row more = ground arith
changed-count n (ends attempt) row more = ground arith

Holds-eq : (row : DeliveryRow) (o : Option DeliveryRow) → Holds (λ r. r ≡ row) o → o ≡ some row
Holds-eq row none h = absurd h
Holds-eq row (some r) h = ap some h

-- A delivered or failed delivery is touched by no claim and no completion: after any sequence of
-- these its row is what it was.
pub run_calls-ended :
    (id : String) (calls : List DeliveryCall) (row : DeliveryRow) (db : DeliveryTables)
    → row_of id db ≡ some row
    → has_ended row.state ≡ true
    → row_of id (run_calls calls db) ≡ some row
run_calls-ended id calls row db e ended =
    Holds-eq row (row_of id (run_calls calls db))
      (Holds-run (λ r. r ≡ row) AnyCall stays id calls db (any_calls calls) (rw e refl))
  where
    stays : (call : DeliveryCall) (r : DeliveryRow) → AnyCall call → r ≡ row → changed call r ≡ row
    stays call r any same = rw same (changed-ended call row ended)

-- With unique delivery ids, a worker whose attempt was overtaken by a later claim can never complete
-- the delivery: once the row counts more attempts than the worker's, after any claims and completions its completion returns
-- false and changes nothing.
pub complete-overtaken :
    (attempt : CompletedWebhookDeliveryAttempt) (calls : List DeliveryCall) (row : DeliveryRow)
    (db : DeliveryTables)
    → DeliveryIdsUnique db
    → row_of attempt.delivery_id db ≡ some row
    → attempt.attempt_count < row.attempt_count
    → complete_webhook_delivery_attempt attempt (run_calls calls db)
      ≡ (returned false, run_calls calls db)
complete-overtaken attempt calls row db u e more =
    refuse (row_of attempt.delivery_id (run_calls calls db)) refl (
      Holds-run (λ r. attempt.attempt_count < r.attempt_count) AnyCall
        (λ call r _. changed-count attempt.attempt_count call r) attempt.delivery_id calls db
        (any_calls calls) (rw e more))
  where
    refuse :
        (o : Option DeliveryRow)
        → row_of attempt.delivery_id (run_calls calls db) ≡ o
        → Holds (λ r. attempt.attempt_count < r.attempt_count) o
        → complete_webhook_delivery_attempt attempt (run_calls calls db)
          ≡ (returned false, run_calls calls db)
    refuse none at_end h = absurd h
    refuse (some last) at_end h =
        complete-unowned attempt.delivery_id (run_calls calls db) (run-DeliveryIdsUnique calls db u)
          attempt last refl at_end (ground arith)
