-- ===== src/Replay/Dispatch.antt =====
-- dispatchReplays of packages/core/src/replay-dispatch.ts: a pass over the queued replays. The
-- scheduler of the deliveries is the parameter `accepts`: a request that it does not accept is a
-- defect that ends the pass. The targets are dispatched one after the other.
pub mod Range
pub mod Running
pub mod Counted
pub mod Completion
use mailmon.Base.{
  ℕ, ◌+◌, String, Bool, true, false, Option, none, some, List, [], ◌∷◌, ◌++◌, if◌then◌else◌, length,
  take,
}
use mailmon.Base.Passes.{Left, for_each}
use mailmon.Base.Table.{find?, select_where, upsert}
use mailmon.Base.Texts.{distinct}
use mailmon.Contracts.{WebhookDeliveryScheduleRequest}
use mailmon.Delivery.Creation.{replay_rows, create_webhook_deliveries_for_replay}
use mailmon.Delivery.Rows.{DeliveryTables}
use mailmon.Replay.{prepare_replay_dispatch, complete_replay_dispatch, list_replay_dispatch_targets}
use mailmon.Replay.Tables.{ReplayRow, ReplayTables, PreparedReplayDispatch}

abbrev pub default_replay_dispatch_batch_size : ℕ
default_replay_dispatch_batch_size = 100

pub record ReplayOutcome : Type 0 where
  pub dispatched : Bool
  pub events_replayed : ℕ
  pub failed : Bool

-- DispatchReplaysResult
pub record DispatchReplaysResult : Type 0 where
  pub completed_at : ℕ
  pub dispatched : ℕ
  pub events_replayed : ℕ
  pub failed : ℕ
  pub scanned : ℕ

abbrev pub not_dispatched : ReplayOutcome
not_dispatched = record { dispatched = false; events_replayed = 0; failed = false }

abbrev pub dispatched_events : ℕ → ReplayOutcome
dispatched_events count = record { dispatched = true; events_replayed = count; failed = false }

-- outcomes.filter(p).length
unfoldable pub count_outcomes : (ReplayOutcome → Bool) → List ReplayOutcome → ℕ
unfolding select_where
count_outcomes p outcomes = length (select_where p outcomes)

-- outcomes.reduce((total, outcome) => total + outcome.eventsReplayed, 0)
unfoldable pub total_events : List ReplayOutcome → ℕ
total_events [] = 0
total_events (outcome ∷ outcomes) = outcome.events_replayed + total_events outcomes

abbrev dispatch_result_of : ℕ → List ReplayRow → List ReplayOutcome → DispatchReplaysResult
dispatch_result_of observed_at targets outcomes = record {
  completed_at = observed_at;
  dispatched = count_outcomes (λ o. o.dispatched) outcomes;
  events_replayed = total_events outcomes;
  failed = count_outcomes (λ o. o.failed) outcomes;
  scanned = length targets;
}

module _ (accepts : WebhookDeliveryScheduleRequest → Bool) where
  -- The requests that are scheduled before one is refused, and whether all are.
  unfoldable pub schedule_each :
      List WebhookDeliveryScheduleRequest → List WebhookDeliveryScheduleRequest × Bool
  schedule_each [] = ([], true)
  schedule_each (request ∷ requests) =
      let (later, all) = schedule_each requests in
      if accepts request then (request ∷ later, all) else ([], false)

module _ (sha256_hex : String → String) (text_before : String → String → Bool)
    (accepts : WebhookDeliveryScheduleRequest → Bool) where
  -- The deliveries of a replay that was claimed, their schedules, and the end of the replay.
  unfoldable pub dispatch_prepared :
      ℕ
      → PreparedReplayDispatch
      → ReplayTables
      → Left ReplayTables WebhookDeliveryScheduleRequest ReplayOutcome
  unfolding schedule_each create_webhook_deliveries_for_replay complete_replay_dispatch
  dispatch_prepared observed_at dispatch db =
      let (requests, delivery) =
        create_webhook_deliveries_for_replay sha256_hex dispatch.replay.webhook_endpoint_id
          dispatch.mailbox_event_ids observed_at db.delivery in
      let created = record db { delivery = delivery } in
      let (scheduled, all) = schedule_each accepts requests in
      if all
      then record {
        answer = some (dispatched_events (length requests));
        sent = scheduled;
        state = complete_replay_dispatch dispatch.replay.id observed_at (length requests) created;
      }
      else record { answer = none; sent = scheduled; state = created }

  abbrev pub dispatch_claimed :
      ℕ
      → Option PreparedReplayDispatch × ReplayTables
      → Left ReplayTables WebhookDeliveryScheduleRequest ReplayOutcome
  dispatch_claimed observed_at (none, db) = record {
    answer = some not_dispatched;
    sent = [];
    state = db;
  }
  dispatch_claimed observed_at (some dispatch, db) = dispatch_prepared observed_at dispatch db

  unfoldable pub dispatch_replay :
      ℕ → String → ReplayTables → Left ReplayTables WebhookDeliveryScheduleRequest ReplayOutcome
  unfolding prepare_replay_dispatch dispatch_prepared
  dispatch_replay observed_at id db =
      dispatch_claimed observed_at (prepare_replay_dispatch text_before id observed_at db)

  unfoldable pub dispatch_replays :
      ℕ → ℕ → ReplayTables → Left ReplayTables WebhookDeliveryScheduleRequest DispatchReplaysResult
  unfolding dispatch_replay for_each list_replay_dispatch_targets count_outcomes total_events
  dispatch_replays limit observed_at db =
      let targets = list_replay_dispatch_targets text_before limit db.replays in
      let left = for_each (λ target. dispatch_replay observed_at target.id) targets db in
      record {
        answer = elim left.answer [
          | none ↦ none
          | some outcomes ↦ some (dispatch_result_of observed_at targets outcomes)
        ];
        sent = left.sent;
        state = left.state;
      }
