-- ===== src/Delivery/Creation/Replays.antt =====
-- What a replay makes of the deliveries of an endpoint.
use mailmon.Base.{
  ℕ, String, ◌≡◌, refl, ◌∙◌, inl, inr, Bool, true, false, ◌&&◌, Option, none, some, List, [], ◌∷◌,
  ◌==◌, arith, if◌then◌else◌, Option-cases,
}
use mailmon.Base.Table.{find?, find?_sound}
use mailmon.Base.Texts.{includes, distinct, includes-distinct}
use mailmon.Delivery.Creation.{
  create_stable_webhook_delivery_id, delivery_of, reset_delivery, reset_rows, new_delivery,
  replay_rows, create_webhook_deliveries_for_replay,
}
use mailmon.Delivery.Creation.Rows.{untried_delivery, upserted}
use mailmon.Delivery.Rows.{DeliveryRow, EventRow, DeliveryTables, event_is}

abbrev pub event_exists : String → List EventRow → Bool
event_exists id events = elim (find? (event_is id) events) [ none ↦ false | some event ↦ true ]

-- The delivery that a replay leaves: the one there, reset, or a new one. Both are pending without
-- attempts and due at once, and name no error, no answer and no delivery.
abbrev pub replayed_row : (String → String) → ℕ → String → String → Option DeliveryRow → DeliveryRow
replayed_row sha256_hex not_before event_id endpoint_id none =
    untried_delivery (create_stable_webhook_delivery_id sha256_hex event_id endpoint_id) event_id
      endpoint_id not_before not_before
replayed_row sha256_hex not_before event_id endpoint_id (some row) =
    untried_delivery row.id row.mailbox_event_id row.webhook_endpoint_id row.created_at not_before

module _ (sha256_hex : String → String) (not_before : ℕ)
    (replayed event_id endpoint_id : String) where
  reset_rows-found :
      (ids : List String) (events : List EventRow) (table : List DeliveryRow)
      → find?
          (delivery_of event_id endpoint_id)
          (reset_rows not_before (replay_rows sha256_hex not_before replayed ids events) table)
        ≡ (if (replayed == endpoint_id && includes event_id ids) && event_exists event_id events
            then some (
                replayed_row sha256_hex not_before event_id endpoint_id
                  (find? (delivery_of event_id endpoint_id) table))
            else find? (delivery_of event_id endpoint_id) table)
  unfolding replay_rows includes
  reset_rows-found [] events table = ground arith
  reset_rows-found (id ∷ ids) events table = elim (Option-cases (find? (event_is id) events)) [
    | inl absent ↦
        rw (absent, replay_rows) (ground (arith, absent, reset_rows-found ids events table))
    | inr (event, found) ↦
        rw (found, replay_rows)
          (reset_rows-found ids events _
            ∙ ground (
              arith,
              found,
              find?_sound (event_is id) events event found,
              upserted sha256_hex not_before event_id endpoint_id
                  (new_delivery sha256_hex not_before event.id replayed) (reset_delivery not_before)
                  table (λ x. (refl, refl)),
            ))
  ]

  -- After a replay for an endpoint, exactly its deliveries of the listed events that are stored are
  -- replayed: each is new, or the one that was there with its id kept and its attempts reset,
  -- whatever its state was. Every other delivery is as it was.
  pub replay-resets :
      (ids : List String) (db : DeliveryTables)
      → find?
          (delivery_of event_id endpoint_id)
          (create_webhook_deliveries_for_replay sha256_hex replayed ids not_before db).1.deliveries
        ≡ (if (replayed == endpoint_id && includes event_id ids) && event_exists event_id db.events
            then some (
                replayed_row sha256_hex not_before event_id endpoint_id
                  (find? (delivery_of event_id endpoint_id) db.deliveries))
            else find? (delivery_of event_id endpoint_id) db.deliveries)
  unfolding create_webhook_deliveries_for_replay
  replay-resets ids db =
      reset_rows-found (distinct ids) db.events db.deliveries
      ∙ ground (arith, includes-distinct event_id ids)
