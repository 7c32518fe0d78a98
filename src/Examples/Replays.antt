-- ===== src/Examples/Replays.antt =====
-- Replays of the example's mailbox: one queued, one running.
use mailmon.Base.{
  length, ℕ, String, String_discrete, ◌≡◌, refl, Bool, true, none, some, List, [], ◌∷◌, ◌==◌, ◌&&◌,
  if◌then◌else◌,
}
use mailmon.Base.Queries.{passes}
use mailmon.Base.Sort.{text_leq}
use mailmon.Base.Table.{select_where, find?}
use mailmon.Base.Texts.{includes}
use mailmon.Contracts.{ReplayStatus, WebhookDeliveryScheduleRequest}
use mailmon.Delivery.Creation.{delivery_of}
use mailmon.Delivery.Creation.Replays.{replayed_row}
use mailmon.Delivery.Rows.{event_is}
use mailmon.Examples.Deliveries.{tables, ended_row}
use mailmon.Replay.{list_replay_dispatch_targets}
use mailmon.Replay.Dispatch.{dispatch_replay, dispatch_replays}
use mailmon.Replay.Dispatch.Completion.{completed_row, dispatch_replays-completes}
use mailmon.Replay.Dispatch.Range.{is_replayed, dispatch_replay-delivers_range}
use mailmon.Replay.Dispatch.Running.{replay_row, dispatch_replays-leaves_running}
use mailmon.Replay.Overlap.{
  ReplayCall, creates, prepares, completes, run_calls, Apart, run_calls-Apart,
}
use mailmon.Replay.Tables.{ReplayRow, ReplayTables, CreateReplayRequest, inserted, overlap_violated}

abbrev replay_in : String → ReplayStatus → ℕ → ℕ → ReplayRow
replay_in id status start_time end_time = record {
  id = id;
  workspace_id = "w";
  mailbox_id = "m";
  webhook_endpoint_id = "p";
  status = status;
  start_time = start_time;
  end_time = end_time;
  events_replayed = none;
  last_error = none;
  started_at = none;
  completed_at = none;
  created_at = 0;
  updated_at = 0;
}

abbrev queued_row : ReplayRow
queued_row = replay_in "a" ReplayStatus.queued 0 10

abbrev running_row : ReplayRow
running_row = replay_in "b" ReplayStatus.running 20 30

abbrev replay_tables : ReplayTables
replay_tables = record { replays = queued_row ∷ running_row ∷ []; delivery = tables ended_row }

abbrev request : CreateReplayRequest
request = record {
  id = "c";
  workspace_id = "w";
  mailbox_id = "m";
  webhook_endpoint_id = "p";
  start_time = 11;
  end_time = 19;
  created_at = 5;
}

abbrev calls : List ReplayCall
calls =
    creates inserted request
    ∷ prepares "a" 6
    ∷ completes "a" 7 1
    ∷ creates (overlap_violated []) request
    ∷ []

abbrev digest : String → String
digest s = s

abbrev accept_all : WebhookDeliveryScheduleRequest → Bool
accept_all delivery = true

run_calls-Apart_example : Apart (run_calls text_leq calls replay_tables).replays
unfolding find? String_discrete
run_calls-Apart_example =
    run_calls-Apart text_leq calls replay_tables (tt, (tt, (tt, (tt, tt)))) (refl, (refl, tt))

dispatch_replays-leaves_running_example :
    replay_row "b" (dispatch_replays digest text_leq accept_all 100 7 replay_tables).state
    ≡ some running_row
unfolding find? String_discrete
dispatch_replays-leaves_running_example =
    dispatch_replays-leaves_running digest text_leq accept_all 100 7 "b" running_row replay_tables
      (refl, (refl, tt)) refl refl

dispatch_replays-completes_example :
    replay_row "a" (dispatch_replays digest text_leq accept_all 100 7 replay_tables).state
    ≡ some (
        completed_row 7
          (length (select_where (is_replayed queued_row) replay_tables.delivery.events))
          queued_row)
unfolding find? String_discrete list_replay_dispatch_targets includes
dispatch_replays-completes_example =
    dispatch_replays-completes digest text_leq accept_all (λ delivery. refl) 100 7 "a" queued_row
      replay_tables (refl, (refl, tt)) (refl, tt) refl refl refl

dispatch_replay-delivers_range_example :
    find?
      (delivery_of "e" "p")
      (dispatch_replay digest text_leq accept_all 7 "a" replay_tables).state.delivery.deliveries
    ≡ (if queued_row.webhook_endpoint_id == "p"
          && passes (is_replayed queued_row) (find? (event_is "e") replay_tables.delivery.events)
        then some (
            replayed_row digest 7 "e" "p"
              (find? (delivery_of "e" "p") replay_tables.delivery.deliveries))
        else find? (delivery_of "e" "p") replay_tables.delivery.deliveries)
unfolding find? String_discrete
dispatch_replay-delivers_range_example =
    dispatch_replay-delivers_range digest text_leq accept_all 7 "a" queued_row "e" "p" replay_tables
      (refl, tt) refl
