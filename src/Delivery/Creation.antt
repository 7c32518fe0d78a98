-- ===== src/Delivery/Creation.antt =====
-- createWebhookDeliveriesForMailboxEvents and createWebhookDeliveriesForReplay of
-- packages/db/src/persistence/webhook-deliveries.ts, with createStableWebhookDeliveryId of
-- webhook-delivery-mappers.ts. The digest of node:crypto is the parameter `sha256_hex`.
pub mod Rows
pub mod Replays
use Prim.Native.String.{◌++◌ as append}
use mailmon.Base.{
  ℕ, String, Bool, true, false, ◌&&◌, Option, none, some, List, [], ◌∷◌, ◌++◌, map, ◌==◌,
  if◌then◌else◌,
}
use mailmon.Base.Table.{find?, select_where, upsert, insert_unless}
use mailmon.Base.Texts.{includes, distinct}
use mailmon.Contracts.{WebhookDeliveryScheduleRequest}
use mailmon.Delivery.Rows.{
  DeliveryState, DeliveryRow, SubscriptionRow, EventRow, DeliveryTables, event_is,
}

-- The columns mailbox_event_id and webhook_endpoint_id, which are unique together.
abbrev pub delivery_of : String → String → DeliveryRow → Bool
delivery_of event_id endpoint_id row =
    row.mailbox_event_id == event_id && row.webhook_endpoint_id == endpoint_id

abbrev pub subscribed : EventRow → SubscriptionRow → Bool
subscribed event subscription =
    subscription.mailbox_id == event.mailbox_id
    && includes event.event_type subscription.event_types

abbrev pub insert_new_rows : List DeliveryRow → List DeliveryRow → List DeliveryRow
insert_new_rows [] table = table
insert_new_rows (row ∷ rows) table =
    insert_new_rows rows
      (insert_unless (delivery_of row.mailbox_event_id row.webhook_endpoint_id) row table)

-- The columns that a replay sets in a delivery that is there.
abbrev pub reset_delivery : ℕ → DeliveryRow → DeliveryRow
reset_delivery not_before row = record row {
  attempt_count = 0;
  delivered_at = none;
  last_attempted_at = none;
  last_error_code = none;
  last_error_message = none;
  last_error_occurred_at = none;
  last_error_retryable = none;
  last_response_status = none;
  next_attempt_at = some not_before;
  processing_started_at = none;
  state = DeliveryState.pending;
  updated_at = not_before;
}

abbrev pub reset_rows : ℕ → List DeliveryRow → List DeliveryRow → List DeliveryRow
reset_rows not_before [] table = table
reset_rows not_before (row ∷ rows) table = reset_rows not_before rows (
    upsert (delivery_of row.mailbox_event_id row.webhook_endpoint_id) row
      (reset_delivery not_before) table)

abbrev schedule_at : ℕ → DeliveryRow → WebhookDeliveryScheduleRequest
schedule_at not_before row = record { delivery_id = row.id; not_before = not_before }

module _ (sha256_hex : String → String) where
  unfoldable pub create_stable_webhook_delivery_id : String → String → String
  create_stable_webhook_delivery_id event_id endpoint_id =
      append "del_" (sha256_hex (append event_id (append "\0" endpoint_id)))

  abbrev pub new_delivery : ℕ → String → String → DeliveryRow
  new_delivery due event_id endpoint_id = record {
    id = create_stable_webhook_delivery_id event_id endpoint_id;
    mailbox_event_id = event_id;
    webhook_endpoint_id = endpoint_id;
    state = DeliveryState.pending;
    attempt_count = 0;
    processing_started_at = none;
    last_attempted_at = none;
    next_attempt_at = some due;
    delivered_at = none;
    last_response_status = none;
    last_error_code = none;
    last_error_message = none;
    last_error_occurred_at = none;
    last_error_retryable = none;
    created_at = due;
    updated_at = due;
  }

  -- subscriptions.filter(…).map(…) of one event. The source first narrows the subscriptions to the
  -- mailboxes of the events, which the filter implies.
  unfoldable pub rows_of_event : ℕ → EventRow → List SubscriptionRow → List DeliveryRow
  rows_of_event created_at event [] = []
  rows_of_event created_at event (subscription ∷ subscriptions) =
      let rest = rows_of_event created_at event subscriptions in
      if subscribed event subscription
      then new_delivery created_at event.id subscription.webhook_endpoint_id ∷ rest
      else rest

  unfoldable pub rows_of_events : ℕ → List EventRow → List SubscriptionRow → List DeliveryRow
  unfolding rows_of_event
  rows_of_events created_at [] subscriptions = []
  rows_of_events created_at (event ∷ events) subscriptions =
      rows_of_event created_at event subscriptions ++ rows_of_events created_at events subscriptions

  -- `created_at` is `new Date()`. The early returns of the source return what the empty lists give.
  unfoldable pub create_webhook_deliveries_for_mailbox_events :
      ℕ → List String → DeliveryTables → List WebhookDeliveryScheduleRequest × DeliveryTables
  unfolding select_where includes rows_of_events insert_unless
  create_webhook_deliveries_for_mailbox_events created_at event_ids db =
      let rows =
        rows_of_events created_at
          (select_where (λ (e : EventRow). includes e.id event_ids) db.events) db.subscriptions in
      (
        map (schedule_at created_at) rows,
        record db { deliveries = insert_new_rows rows db.deliveries },
      )

  -- The rows of a replay: one for each different event id that names an event.
  unfoldable pub replay_rows : ℕ → String → List String → List EventRow → List DeliveryRow
  unfolding find?
  replay_rows not_before endpoint_id [] events = []
  replay_rows not_before endpoint_id (id ∷ ids) events =
      let rest = replay_rows not_before endpoint_id ids events in
      elim (find? (event_is id) events) [
        | none ↦ rest
        | some event ↦ new_delivery not_before event.id endpoint_id ∷ rest
      ]

  unfoldable pub create_webhook_deliveries_for_replay :
      String
      → List String
      → ℕ
      → DeliveryTables
      → List WebhookDeliveryScheduleRequest × DeliveryTables
  unfolding distinct replay_rows upsert
  create_webhook_deliveries_for_replay endpoint_id event_ids not_before db =
      let rows = replay_rows not_before endpoint_id (distinct event_ids) db.events in
      (
        map (schedule_at not_before) rows,
        record db { deliveries = reset_rows not_before rows db.deliveries },
      )
