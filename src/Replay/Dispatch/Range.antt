-- ===== src/Replay/Dispatch/Range.antt =====
-- Which deliveries the dispatch of a replay makes: those of the events in its range.
use mailmon.Base.{
  ltb, not, ◌||◌, Option, none, ℕ, String, ◌≡◌, refl, ap, ◌∙◌, inl, inr, Bool, ◌&&◌, some, List,
  arith, Bool-cases, ◌==◌, if◌then◌else◌,
}
use mailmon.Base.Queries.{passes, includes-select_sorted}
use mailmon.Base.Table.{find?, update_where, KeyUnique}
use mailmon.Base.Texts.{includes}
use mailmon.Contracts.{WebhookDeliveryScheduleRequest}
use mailmon.Delivery.Creation.{delivery_of, create_webhook_deliveries_for_replay}
use mailmon.Delivery.Creation.Replays.{event_exists, replayed_row, replay-resets}
use mailmon.Delivery.Rows.{DeliveryTables, EventRow, event_is}
use mailmon.Replay.{
  in_range, event_ids_of, event_id, event_leq, dispatch_of, queued_replay, start_replay,
  prepare_replay_dispatch, complete_replay_dispatch,
}
use mailmon.Replay.Dispatch.{dispatch_prepared, dispatch_replay, schedule_each}
use mailmon.Replay.Tables.{ReplayRow, ReplayTables, PreparedReplayDispatch}

-- The event is one of the replay's mailbox, neither before the start nor after the end.
abbrev pub is_replayed : ReplayRow → EventRow → Bool
is_replayed replay event =
    event.mailbox_id == replay.mailbox_id
    && not (ltb event.occurred_at replay.start_time || ltb replay.end_time event.occurred_at)

is_replayed-passes :
    (replay : ReplayRow) (found : Option EventRow)
    → passes (in_range replay) found ≡ passes (is_replayed replay) found
is_replayed-passes replay none = refl
is_replayed-passes replay (some event) = ground arith

abbrev pub EventIdsUnique : ReplayTables → Type 0
EventIdsUnique db = KeyUnique event_id db.delivery.events

module _ (sha256_hex : String → String) (text_before : String → String → Bool)
    (accepts : WebhookDeliveryScheduleRequest → Bool) where
  -- The deliveries are made before the schedules, and are there whatever these come to.
  prepared-deliveries :
      (at : ℕ) (dispatch : PreparedReplayDispatch) (db : ReplayTables)
      → (dispatch_prepared sha256_hex text_before accepts at dispatch db).state.delivery
        ≡ (create_webhook_deliveries_for_replay sha256_hex dispatch.replay.webhook_endpoint_id
            dispatch.mailbox_event_ids at db.delivery).1
  unfolding dispatch_prepared complete_replay_dispatch
  prepared-deliveries at dispatch db =
      let made =
        create_webhook_deliveries_for_replay sha256_hex dispatch.replay.webhook_endpoint_id
          dispatch.mailbox_event_ids at db.delivery in
      elim (Bool-cases (schedule_each accepts made.0).1) [
        | inl all ↦ rw (all, dispatch_prepared) refl
        | inr part ↦ rw (part, dispatch_prepared) refl
      ]

  dispatched-deliveries :
      (at : ℕ) (id : String) (queued : ReplayRow) (db : ReplayTables)
      → find? (queued_replay id) db.replays ≡ some queued
      → (dispatch_replay sha256_hex text_before accepts at id db).state.delivery
        ≡ (create_webhook_deliveries_for_replay sha256_hex queued.webhook_endpoint_id
            (event_ids_of text_before queued db.delivery.events)
            at
            db.delivery).1
  unfolding dispatch_replay prepare_replay_dispatch
  dispatched-deliveries at id queued db e =
      rw (e, dispatch_replay, prepare_replay_dispatch)
        (prepared-deliveries at (dispatch_of text_before at queued db)
          (record db { replays = update_where (queued_replay id) (start_replay at) db.replays }))

  in_range-exists :
      (queued : ReplayRow) (id : String) (events : List EventRow)
      → KeyUnique event_id events
      → (includes id (event_ids_of text_before queued events) && event_exists id events)
        ≡ passes (in_range queued) (find? (event_is id) events)
  unfolding event_ids_of
  in_range-exists queued id events u =
      ground (
        arith,
        includes-select_sorted event_id id (event_leq text_before) (in_range queued) events u,
      )

  -- With unique event ids, the dispatch of a queued replay replays exactly the deliveries, to the
  -- replay's endpoint, of the stored events of its mailbox from its start to its end, both ends
  -- included: each is new, or the one there with its id kept and its attempts reset. Every other
  -- delivery is as it was. This holds whatever the scheduler answers.
  pub dispatch_replay-delivers_range :
      (at : ℕ) (id : String) (queued : ReplayRow) (event endpoint : String) (db : ReplayTables)
      → EventIdsUnique db
      → find? (queued_replay id) db.replays ≡ some queued
      → find?
          (delivery_of event endpoint)
          (dispatch_replay sha256_hex text_before accepts at id db).state.delivery.deliveries
        ≡ (if queued.webhook_endpoint_id == endpoint
              && passes (is_replayed queued) (find? (event_is event) db.delivery.events)
            then some (
                replayed_row sha256_hex at event endpoint
                  (find? (delivery_of event endpoint) db.delivery.deliveries))
            else find? (delivery_of event endpoint) db.delivery.deliveries)
  dispatch_replay-delivers_range at id queued event endpoint db u e =
      ap (λ (t : DeliveryTables). find? (delivery_of event endpoint) t.deliveries)
        (dispatched-deliveries at id queued db e)
      ∙ replay-resets sha256_hex at queued.webhook_endpoint_id event endpoint
          (event_ids_of text_before queued db.delivery.events) db.delivery
      ∙ ground (
        arith,
        in_range-exists queued event db.delivery.events u,
        is_replayed-passes queued (find? (event_is event) db.delivery.events),
      )
