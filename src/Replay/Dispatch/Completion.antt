-- ===== src/Replay/Dispatch/Completion.antt =====
-- What a pass over the queued replays does to the replays of its batch, when the scheduler accepts
-- every delivery.
use mailmon.Base.{
  none, ℕ, String, String_discrete, ◌≡◌, refl, sym, ◌∙◌, subst, length-map, inl, inr, Bool, true,
  some, List, [], ◌∷◌, map, arith, Option-cases, length,
}
use mailmon.Base.Passes.{for_each, followed_by-keeps, followed_by-later}
use mailmon.Base.Table.{
  find?, select_where, update_where, find?-update_where, update_where-KeyUnique, find?-key_and,
  find?_sound,
}
use mailmon.Base.Texts.{includes, distinct}
use mailmon.Contracts.{ReplayStatus, WebhookDeliveryScheduleRequest}
use mailmon.Delivery.Creation.{replay_rows, create_webhook_deliveries_for_replay}
use mailmon.Delivery.Rows.{EventRow}
use mailmon.Replay.Dispatch.Counted.{length-replayed}
use mailmon.Replay.Dispatch.Range.{is_replayed, EventIdsUnique}
use mailmon.Replay.{
  event_ids_of, queued_replay, running_replay, start_replay, finish_replay, prepare_replay_dispatch,
  complete_replay_dispatch, list_replay_dispatch_targets, dispatch_of,
}
use mailmon.Replay.Dispatch.{
  ReplayOutcome, dispatch_prepared, dispatch_replay, dispatch_replays, schedule_each,
  dispatched_events,
}
use mailmon.Replay.Dispatch.Running.{
  Stands, ReplayIdsUnique, replay_row, replay_id, is_queued_row, dispatch_replay-Stands,
  dispatch_each, dispatch_each-Stands,
}
use mailmon.Replay.Tables.{ReplayRow, ReplayTables, PreparedReplayDispatch, replay_is}

schedule_each-all :
    (accepts : WebhookDeliveryScheduleRequest → Bool)
    (requests : List WebhookDeliveryScheduleRequest)
    → ((request : WebhookDeliveryScheduleRequest) → accepts request ≡ true)
    → schedule_each accepts requests ≡ (requests, true)
unfolding schedule_each
schedule_each-all accepts [] all = refl
schedule_each-all accepts (request ∷ requests) all =
    rw (all request) (rw (schedule_each-all accepts requests all) refl)

-- An update of the row.
updated-Stands :
    (id : String) (row : ReplayRow) (p : ReplayRow → Bool) (f : ReplayRow → ReplayRow)
    (db : ReplayTables)
    → ((x : ReplayRow) → (f x).id ≡ x.id)
    → p row ≡ true
    → Stands id row db
    → Stands id (f row) (record db { replays = update_where p f db.replays })
updated-Stands id row p f db same hit (unique, found) = (
  update_where-KeyUnique replay_id p f db.replays same unique,
  find?-update_where p (replay_is id) f db.replays (λ x. rw same) ∙ rw found (rw hit refl),
)

-- A replay that was started and completed at a time.
abbrev pub completed_row : ℕ → ℕ → ReplayRow → ReplayRow
completed_row at count row = record row {
  status = ReplayStatus.completed;
  events_replayed = some count;
  last_error = none;
  started_at = some at;
  completed_at = some at;
  updated_at = at;
}

module _ (sha256_hex : String → String) (text_before : String → String → Bool)
    (accepts : WebhookDeliveryScheduleRequest → Bool)
    (all : (request : WebhookDeliveryScheduleRequest) → accepts request ≡ true) where
  -- The row after a dispatch that created `count` deliveries.
  abbrev pub replayed : ℕ → ℕ → ReplayRow → ReplayRow
  replayed at count row = finish_replay at count (start_replay at row)

  -- The number of the rows that a replay makes of these events.
  abbrev rows_made : ℕ → ReplayRow → List EventRow → ℕ
  rows_made at row events = length (
      replay_rows sha256_hex at row.webhook_endpoint_id
        (distinct (event_ids_of text_before row events)) events)

  dispatch_prepared-completes :
      (id : String) (row : ReplayRow) (at : ℕ) (dispatch : PreparedReplayDispatch)
      (db : ReplayTables)
      → dispatch.replay.id ≡ id
      → Stands id (start_replay at row) db
      → let left = dispatch_prepared sha256_hex text_before accepts at dispatch db in
        (count : ℕ) × (left.answer ≡ some (dispatched_events count))
        × (count
            ≡ length (
                replay_rows sha256_hex at dispatch.replay.webhook_endpoint_id
                  (distinct dispatch.mailbox_event_ids)
                  db.delivery.events))
        × Stands id (replayed at count row) left.state
  unfolding dispatch_prepared complete_replay_dispatch create_webhook_deliveries_for_replay
  dispatch_prepared-completes id row at dispatch db same stands =
      let made =
        create_webhook_deliveries_for_replay sha256_hex dispatch.replay.webhook_endpoint_id
          dispatch.mailbox_event_ids at db.delivery in
      rw (schedule_each-all accepts made.0 all, dispatch_prepared)
        (
          length made.0,
          refl,
          length-map
              (replay_rows sha256_hex at dispatch.replay.webhook_endpoint_id
                (distinct dispatch.mailbox_event_ids) db.delivery.events)
              _,
          updated-Stands id (start_replay at row) (running_replay dispatch.replay.id)
              (finish_replay at (length made.0)) (record db { delivery = made.1 }) (λ x. refl)
              (ground (arith, same, find?_sound (replay_is id) db.replays _ stands.1)) stands,
        )

  found_queued :
      (id : String) (row : ReplayRow) (db : ReplayTables)
      → row.status ≡ ReplayStatus.queued
      → Stands id row db
      → find? (queued_replay id) db.replays ≡ some row
  found_queued id row db queued (unique, found) =
      ground (arith, queued, find?-key_and replay_id id is_queued_row db.replays unique, found)

  dispatch_replay-completes :
      (id : String) (row : ReplayRow) (at : ℕ) (db : ReplayTables)
      → row.status ≡ ReplayStatus.queued
      → Stands id row db
      → let left = dispatch_replay sha256_hex text_before accepts at id db in
        (count : ℕ) × (left.answer ≡ some (dispatched_events count))
        × (count ≡ rows_made at row db.delivery.events)
        × Stands id (replayed at count row) left.state
  unfolding dispatch_replay prepare_replay_dispatch
  dispatch_replay-completes id row at db queued stands =
      rw (found_queued id row db queued stands, dispatch_replay, prepare_replay_dispatch)
        (dispatch_prepared-completes id row at (dispatch_of text_before at row db)
          (record db { replays = update_where (queued_replay id) (start_replay at) db.replays })
          (ground (arith, find?_sound (replay_is id) db.replays row stands.1))
          (updated-Stands id row (queued_replay id) (start_replay at) db (λ x. refl)
            (ground (arith, queued, find?_sound (replay_is id) db.replays row stands.1)) stands))

  -- A dispatch of another replay answers, too.
  dispatch_replay-answers :
      (at : ℕ) (id : String) (db : ReplayTables)
      → (outcome : ReplayOutcome) × ((dispatch_replay sha256_hex text_before accepts at id
            db).answer
          ≡ some outcome)
  unfolding dispatch_replay prepare_replay_dispatch dispatch_prepared
  dispatch_replay-answers at id db = elim (Option-cases (find? (queued_replay id) db.replays)) [
    | inl e ↦ rw (e, dispatch_replay, prepare_replay_dispatch) (_, refl)
    | inr (row, e) ↦
        rw (e, dispatch_replay, prepare_replay_dispatch)
          (rw (schedule_each-all accepts _ all, dispatch_prepared) (_, refl))
  ]

  -- A dispatch leaves the stored events alone.
  dispatch_replay-events :
      (at : ℕ) (id : String) (db : ReplayTables)
      → (dispatch_replay sha256_hex text_before accepts at id db).state.delivery.events
        ≡ db.delivery.events
  unfolding dispatch_replay prepare_replay_dispatch dispatch_prepared complete_replay_dispatch
      create_webhook_deliveries_for_replay
  dispatch_replay-events at id db = elim (Option-cases (find? (queued_replay id) db.replays)) [
    | inl e ↦ rw (e, dispatch_replay, prepare_replay_dispatch) refl
    | inr (row, e) ↦
        rw (e, dispatch_replay, prepare_replay_dispatch)
          (rw (schedule_each-all accepts _ all, dispatch_prepared) refl)
  ]

  dispatch_each-completes :
      (id : String) (row : ReplayRow) (at : ℕ) (targets : List ReplayRow) (db : ReplayTables)
      → row.status ≡ ReplayStatus.queued
      → includes id (map replay_id targets) ≡ true
      → Stands id row db
      → Stands id
          (replayed at (rows_made at row db.delivery.events) row)
          (dispatch_each sha256_hex text_before accepts at targets db).state
  unfolding for_each includes
  dispatch_each-completes id row at [] db queued listed stands = absurd (ground (arith, listed))
  dispatch_each-completes id row at (target ∷ targets) db queued listed stands =
      let left = dispatch_replay sha256_hex text_before accepts at target.id db in
      let next = dispatch_each sha256_hex text_before accepts at targets in
      elim (String_discrete target.id id) [
        | yes same ↦
            let (count, answer, made, here) =
              dispatch_replay-completes target.id row at db queued (rw same stands) in
            rw (sym same) (
              rw (sym made) (
                followed_by-keeps (Stands target.id (replayed at count row)) left next here (
                  dispatch_each-Stands sha256_hex text_before accepts target.id
                    (replayed at count row) at targets left.state refl here)))
        | no different ↦
            let (outcome, answer) = dispatch_replay-answers at target.id db in
            let here =
              dispatch_replay-Stands sha256_hex text_before accepts id target.id row at db
                (ground (arith, different, find?_sound (replay_is id) db.replays row stands.1))
                stands in
            followed_by-later (Stands id (replayed at (rows_made at row db.delivery.events) row))
              left next outcome answer
              (subst
                (λ events.
                  Stands id (replayed at (rows_made at row events) row) (next left.state).state)
                (dispatch_replay-events at target.id db)
                (dispatch_each-completes id row at targets left.state queued
                  (ground (arith, listed, different)) here))
      ]

  -- If the scheduler accepts every delivery and the ids of replays and of events are unique, then a
  -- pass completes each queued replay of its batch, the first `limit` queued ones: afterwards it is
  -- completed at the time of the pass without an error, and the number of its events is that of the
  -- stored events of its mailbox from its start to its end.
  pub dispatch_replays-completes :
      (limit at : ℕ) (id : String) (row : ReplayRow) (db : ReplayTables)
      → ReplayIdsUnique db
      → EventIdsUnique db
      → replay_row id db ≡ some row
      → row.status ≡ ReplayStatus.queued
      → includes id (map replay_id (list_replay_dispatch_targets text_before limit db.replays))
        ≡ true
      → replay_row id (dispatch_replays sha256_hex text_before accepts limit at db).state
        ≡ some (completed_row at (length (select_where (is_replayed row) db.delivery.events)) row)
  unfolding dispatch_replays
  dispatch_replays-completes limit at id row db unique events found queued listed =
      rw (sym (length-replayed sha256_hex text_before at row db.delivery.events events))
        (dispatch_each-completes id row at
          (list_replay_dispatch_targets text_before limit db.replays) db queued listed
          (unique, found)).1
