-- ===== src/Delivery/Claims.antt =====
-- Claims and fences: who may attempt a delivery, and whose completion counts.
use mathlib.Core.Option
use mailmon.Base.{
  ℕ, ◌+◌, ◌<◌, String, ◌≡◌, refl, ◌∙◌, true, false, ◌&&◌, Option, none, some, arith, inl, inr,
  Option-cases, Bool-cases, if◌then◌else◌,
}
use mailmon.Base.Table.{
  KeyUnique, update_where-KeyUnique, keep_if, find?, find?-key_and, find?_sound, find?-update_where,
  update_where,
}
use mailmon.Contracts.{CompletedWebhookDeliveryAttempt}
use mailmon.Delivery.Rows.{DeliveryRow, DeliveryTables, delivery_is}
use mailmon.Delivery.Store.{
  returned, threw, prepared, processing_timeout_ms, claimable, claim, claims, has_context,
  prepare_webhook_delivery_attempt, owned_by_attempt, completes, complete_webhook_delivery_attempt,
}

abbrev pub DeliveryIdsUnique : DeliveryTables → Type 0
DeliveryIdsUnique db = KeyUnique (λ (row : DeliveryRow). row.id) db.deliveries

abbrev pub row_of : String → DeliveryTables → Option DeliveryRow
row_of id db = find? (delivery_is id) db.deliveries

module _ (id : String) (db : DeliveryTables) (unique : DeliveryIdsUnique db) where
  claims-found :
      (at : ℕ) (o : Option DeliveryRow)
      → row_of id db ≡ o
      → find? (claims id at) db.deliveries ≡ keep_if (claimable at) o
  claims-found at o e =
      find?-key_and (λ (row : DeliveryRow). row.id) id (claimable at) db.deliveries unique ∙ rw e

  pub completes-found :
      (attempt : CompletedWebhookDeliveryAttempt) (o : Option DeliveryRow)
      → attempt.delivery_id ≡ id
      → row_of id db ≡ o
      → find? (completes attempt) db.deliveries ≡ keep_if (owned_by_attempt attempt) o
  completes-found attempt o same e =
      find?-key_and (λ (row : DeliveryRow). row.id) attempt.delivery_id (owned_by_attempt attempt)
        db.deliveries unique
      ∙ rw (same, e)

  -- What a claim does to the row of the delivery, on every branch.
  pub prepare-row :
      (at : ℕ) (row : DeliveryRow)
      → row_of id db ≡ some row
      → row_of id (prepare_webhook_delivery_attempt id at db).1
        ≡ some (if claimable at row && has_context db row then claim at row else row)
  unfolding prepare_webhook_delivery_attempt
  prepare-row at row e = ground (arith, claims-found at (some row) e, after, named, e)
    where
      after :
          find? (delivery_is id) (update_where (claims id at) (claim at) db.deliveries)
          ≡ Option.map (λ r. if claims id at r then claim at r else r) (row_of id db)
      after =
          find?-update_where (claims id at) (delivery_is id) (claim at) db.deliveries (λ r. refl)

      named : delivery_is id row ≡ true
      named = find?_sound (delivery_is id) db.deliveries row e

  -- The result of a claim, on every branch.
  pub prepare-result :
      (at : ℕ) (row : DeliveryRow)
      → row_of id db ≡ some row
      → (prepare_webhook_delivery_attempt id at db).0 ≡ (
          if claimable at row
          then if has_context db row then returned (some (prepared at row)) else threw
          else returned none)
  unfolding prepare_webhook_delivery_attempt
  prepare-result at row e = ground (arith, claims-found at (some row) e)

  -- A claim that is too early, or of a delivery that has ended, changes nothing.
  pub prepare-unclaimable :
      (at : ℕ) (row : DeliveryRow)
      → row_of id db ≡ some row
      → claimable at row ≡ false
      → prepare_webhook_delivery_attempt id at db ≡ (returned none, db)
  unfolding prepare_webhook_delivery_attempt
  prepare-unclaimable at row e early = ground (arith, claims-found at (some row) e)

  -- A completion that the row does not own changes nothing and returns false.
  pub complete-unowned :
      (attempt : CompletedWebhookDeliveryAttempt) (row : DeliveryRow)
      → attempt.delivery_id ≡ id
      → row_of id db ≡ some row
      → owned_by_attempt attempt row ≡ false
      → complete_webhook_delivery_attempt attempt db ≡ (returned false, db)
  unfolding complete_webhook_delivery_attempt
  complete-unowned attempt row same e foreign =
      ground (arith, completes-found attempt (some row) same e)

-- A claim keeps the ids of the deliveries.
pub prepare-DeliveryIdsUnique :
    (id : String) (at : ℕ) (db : DeliveryTables)
    → DeliveryIdsUnique db
    → DeliveryIdsUnique (prepare_webhook_delivery_attempt id at db).1
unfolding prepare_webhook_delivery_attempt
prepare-DeliveryIdsUnique id at db u = elim (Option-cases (find? (claims id at) db.deliveries)) [
  | inl e ↦ rw (e, prepare_webhook_delivery_attempt) u
  | inr (row, e) ↦ elim (Bool-cases (has_context db row)) [
    | inl joined ↦
        rw (e, prepare_webhook_delivery_attempt)
          (rw joined (
            update_where-KeyUnique (λ (r : DeliveryRow). r.id) (claims id at) (claim at)
              db.deliveries (λ r. refl) u))
    | inr alone ↦ rw (e, prepare_webhook_delivery_attempt) (rw alone u)
  ]
]

-- With unique delivery ids, once a due delivery whose endpoint and event are stored is claimed, a
-- further claim less than thirty seconds after it gets nothing and changes nothing, as long as nothing
-- else has touched the tables.
pub prepare-excludes :
    (id : String) (at later : ℕ) (row : DeliveryRow) (db : DeliveryTables)
    → DeliveryIdsUnique db
    → row_of id db ≡ some row
    → claimable at row ≡ true
    → has_context db row ≡ true
    → later < at + processing_timeout_ms
    → let db' = (prepare_webhook_delivery_attempt id at db).1 in
      prepare_webhook_delivery_attempt id later db' ≡ (returned none, db')
prepare-excludes id at later row db u e due joined soon =
    let db' = (prepare_webhook_delivery_attempt id at db).1 in
    prepare-unclaimable id db' (prepare-DeliveryIdsUnique id at db u) later (claim at row)
      (prepare-row id db u at row e ∙ ground (arith, due, joined)) (ground arith)
