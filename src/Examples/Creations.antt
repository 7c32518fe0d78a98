-- ===== src/Examples/Creations.antt =====
-- Deliveries created for an event and reset by a replay.
use mailmon.Base.{String, ◌≡◌, [], ◌∷◌}
use mailmon.Base.Table.{find?}
use mailmon.Delivery.Creation.{
  delivery_of, create_stable_webhook_delivery_id, create_webhook_deliveries_for_mailbox_events,
}
use mailmon.Delivery.Creation.Rows.{untried_delivery, wanted, or_new, create-delivers_each}
use mailmon.Delivery.Rows.{DeliveryTables}
use mailmon.Examples.Deliveries.{tables, ended_row}

abbrev digest : String → String
digest s = s

abbrev undelivered : DeliveryTables
undelivered = record (tables ended_row) { deliveries = [] }

create-delivers_each_example :
    find?
      (delivery_of "e" "p")
      (create_webhook_deliveries_for_mailbox_events digest 7 ("e" ∷ []) undelivered).1.deliveries
    ≡ or_new
        (untried_delivery (create_stable_webhook_delivery_id digest "e" "p") "e" "p" 7 7)
        (wanted "e" "p" ("e" ∷ []) undelivered.events undelivered.subscriptions)
        (find? (delivery_of "e" "p") undelivered.deliveries)
create-delivers_each_example = create-delivers_each digest 7 "e" "p" ("e" ∷ []) undelivered
