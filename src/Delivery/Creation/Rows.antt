-- ===== src/Delivery/Creation/Rows.antt =====
-- Which deliveries there are after a creation.
use mailmon.Base.{
  ℕ, String, ◌≡◌, refl, ◌∙◌, inl, inr, Bool, false, ◌&&◌, ◌||◌, Option, none, some, List, [], ◌∷◌,
  ◌++◌, ◌==◌, arith, if◌then◌else◌, Bool-cases,
}
use mailmon.Base.Table.{find?, select_where, upsert, insert_unless}
use mailmon.Base.Texts.{includes}
use mailmon.Delivery.Creation.{
  create_stable_webhook_delivery_id, delivery_of, insert_new_rows, new_delivery, rows_of_event,
  rows_of_events, create_webhook_deliveries_for_mailbox_events,
}
use mailmon.Delivery.Rows.{DeliveryState, DeliveryRow, SubscriptionRow, EventRow, DeliveryTables}

-- A delivery that is pending, without attempts, and due at a time.
abbrev pub untried_delivery : String → String → String → ℕ → ℕ → DeliveryRow
untried_delivery id event_id endpoint_id created_at due = record {
  id = id;
  mailbox_event_id = event_id;
  webhook_endpoint_id = endpoint_id;
  state = DeliveryState.pending;
  attempt_count = 0;
  processing_started_at = none;
  last_attempted_at = none;
  next_attempt_at = some due;
  delivered_at = none;
  last_response_status = none;
  last_error_code = none;
  last_error_message = none;
  last_error_occurred_at = none;
  last_error_retryable = none;
  created_at = created_at;
  updated_at = due;
}

-- The endpoint subscribes to events of this type in the event's mailbox.
unfoldable pub subscribes : String → EventRow → List SubscriptionRow → Bool
subscribes endpoint_id event [] = false
subscribes endpoint_id event (s ∷ ss) =
    s.webhook_endpoint_id == endpoint_id
      && (s.mailbox_id == event.mailbox_id && includes event.event_type s.event_types)
    || subscribes endpoint_id event ss

-- A listed event of that id is stored, and the endpoint subscribes to it.
unfoldable pub wanted : String → String → List String → List EventRow → List SubscriptionRow → Bool
unfolding subscribes
wanted event_id endpoint_id ids [] subscriptions = false
wanted event_id endpoint_id ids (event ∷ events) subscriptions =
    event.id == event_id && includes event_id ids && subscribes endpoint_id event subscriptions
    || wanted event_id endpoint_id ids events subscriptions

abbrev pub or_new : DeliveryRow → Bool → Option DeliveryRow → Option DeliveryRow
or_new row wanted (some old) = some old
or_new row wanted none = if wanted then some row else none

module _ (sha256_hex : String → String) (due : ℕ) (event_id endpoint_id : String) where
  abbrev fresh : DeliveryRow
  fresh = new_delivery sha256_hex due event_id endpoint_id

  rows_of_event-append :
      (event : EventRow) (subscriptions : List SubscriptionRow) (rows : List DeliveryRow)
      → find?
          (delivery_of event_id endpoint_id)
          (rows_of_event sha256_hex due event subscriptions ++ rows)
        ≡ (if event.id == event_id && subscribes endpoint_id event subscriptions
            then some fresh
            else find? (delivery_of event_id endpoint_id) rows)
  unfolding rows_of_event subscribes find?
  rows_of_event-append event [] rows = ground arith
  rows_of_event-append event (s ∷ ss) rows = ground (arith, rows_of_event-append event ss rows)

  rows_of_events-found :
      (ids : List String) (events : List EventRow) (subscriptions : List SubscriptionRow)
      → find? (delivery_of event_id endpoint_id) (
          rows_of_events sha256_hex due
            (select_where (λ (e : EventRow). includes e.id ids) events)
            subscriptions)
        ≡ (if wanted event_id endpoint_id ids events subscriptions then some fresh else none)
  unfolding rows_of_events select_where wanted find?
  rows_of_events-found ids [] subscriptions = ground arith
  rows_of_events-found ids (event ∷ events) subscriptions =
      elim (Bool-cases (includes event.id ids)) [
        | inr unlisted ↦
            rw unlisted (ground (arith, unlisted, rows_of_events-found ids events subscriptions))
        | inl listed ↦ rw listed (
            rows_of_event-append event subscriptions _
            ∙ ground (arith, listed, rows_of_events-found ids events subscriptions))
      ]

  pub upserted :
      (row : DeliveryRow) (f : DeliveryRow → DeliveryRow) (table : List DeliveryRow)
      → ((x : DeliveryRow)
          → ((f x).mailbox_event_id ≡ x.mailbox_event_id)
            × ((f x).webhook_endpoint_id ≡ x.webhook_endpoint_id))
      → find?
          (delivery_of event_id endpoint_id)
          (upsert (delivery_of row.mailbox_event_id row.webhook_endpoint_id) row f table)
        ≡ (if delivery_of event_id endpoint_id row
            then some (elim (find? (delivery_of event_id endpoint_id) table) [
              | none ↦ row
              | some x ↦ f x
            ])
            else find? (delivery_of event_id endpoint_id) table)
  unfolding upsert find?
  upserted row f [] keep = ground arith
  upserted row f (x ∷ xs) keep = ground (arith, upserted row f xs keep, keep x)

  insert_new_rows-found :
      (rows table : List DeliveryRow)
      → find? (delivery_of event_id endpoint_id) (insert_new_rows rows table)
        ≡ elim (find? (delivery_of event_id endpoint_id) table) [
          | some old ↦ some old
          | none ↦ find? (delivery_of event_id endpoint_id) rows
        ]
  unfolding find? insert_unless
  insert_new_rows-found [] table = ground arith
  insert_new_rows-found (row ∷ rows) table = ground (
    arith,
    insert_new_rows-found rows
        (upsert (delivery_of row.mailbox_event_id row.webhook_endpoint_id) row (λ x. x) table),
    upserted row (λ x. x) table (λ x. (refl, refl)),
  )

  -- After the creation for events, an endpoint has a delivery of an event exactly if it had one, which
  -- is untouched, or a listed event of that id is stored and the endpoint subscribes to it: then the
  -- delivery is pending, without attempts, and due at once.
  pub create-delivers_each :
      (ids : List String) (db : DeliveryTables)
      → find?
          (delivery_of event_id endpoint_id)
          (create_webhook_deliveries_for_mailbox_events sha256_hex due ids db).1.deliveries
        ≡ or_new
            (untried_delivery
              (create_stable_webhook_delivery_id sha256_hex event_id endpoint_id)
              event_id
              endpoint_id
              due
              due)
            (wanted event_id endpoint_id ids db.events db.subscriptions)
            (find? (delivery_of event_id endpoint_id) db.deliveries)
  unfolding create_webhook_deliveries_for_mailbox_events
  create-delivers_each ids db =
      insert_new_rows-found
        (rows_of_events sha256_hex due
          (select_where (λ (e : EventRow). includes e.id ids) db.events) db.subscriptions)
        db.deliveries
      ∙ ground (arith, rows_of_events-found ids db.events db.subscriptions)
