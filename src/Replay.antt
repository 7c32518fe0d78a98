-- ===== src/Replay.antt =====
-- packages/db/src/persistence/replays.ts: the store of replays. A replay sends the events of a
-- mailbox in a range of time to a webhook endpoint again.
pub mod Tables
pub mod Overlap
pub mod Dispatch
use mailmon.Base.{
  ℕ, String, Bool, true, false, ◌&&◌, ◌||◌, not, Option, none, some, List, [], ◌∷◌, ◌++◌, map, ltb,
  eqb, leb, ◌==◌, take,
}
use mailmon.Base.Queries.{first, select_sorted}
use mailmon.Base.Table.{find?, update_where}
use mailmon.Contracts.{ReplayStatus}
use mailmon.Delivery.Rows.{EventRow}
use mailmon.Replay.Tables.{
  ReplayRow, ReplayTables, CreateReplayRequest, InsertFate, inserted, overlap_violated, deadlocked,
  refused, CreateReplayOutcome, created, replay_conflict, create_failed, PreparedReplayDispatch,
  replay_is, is_active_replay,
}

-- The replays that are queued or running for the same destination and share a moment.
abbrev pub conflicts_with : String → String → String → ℕ → ℕ → ReplayRow → Bool
conflicts_with workspace_id mailbox_id webhook_endpoint_id start_time end_time row =
    row.workspace_id == workspace_id
    && (row.mailbox_id == mailbox_id
        && (row.webhook_endpoint_id == webhook_endpoint_id
            && (is_active_replay row.status
                && (leb row.start_time end_time && leb start_time row.end_time))))

abbrev pub requested_conflict : CreateReplayRequest → ReplayRow → Bool
requested_conflict params row =
    conflicts_with params.workspace_id params.mailbox_id params.webhook_endpoint_id
      params.start_time params.end_time row

abbrev pub new_replay : CreateReplayRequest → ReplayRow
new_replay params = record {
  id = params.id;
  workspace_id = params.workspace_id;
  mailbox_id = params.mailbox_id;
  webhook_endpoint_id = params.webhook_endpoint_id;
  status = ReplayStatus.queued;
  start_time = params.start_time;
  end_time = params.end_time;
  events_replayed = none;
  last_error = none;
  started_at = none;
  completed_at = none;
  created_at = params.created_at;
  updated_at = params.created_at;
}

-- conflict?.id ?? params.id
abbrev conflict_id : CreateReplayRequest → Option ReplayRow → String
conflict_id params none = params.id
conflict_id params (some row) = row.id

abbrev conflict_of : CreateReplayRequest → Option ReplayRow → CreateReplayOutcome
conflict_of params conflict =
    replay_conflict params.mailbox_id params.webhook_endpoint_id (conflict_id params conflict)

-- The columns that a claim sets.
abbrev pub start_replay : ℕ → ReplayRow → ReplayRow
start_replay started_at row = record row {
  last_error = none;
  started_at = some started_at;
  status = ReplayStatus.running;
  updated_at = started_at;
}

abbrev pub is_queued : ReplayStatus → Bool
is_queued ReplayStatus.queued = true
is_queued _ = false

abbrev has_started : ReplayStatus → Bool
has_started ReplayStatus.running = true
has_started _ = false

abbrev pub queued_replay : String → ReplayRow → Bool
queued_replay id row = replay_is id row && is_queued row.status

abbrev pub running_replay : String → ReplayRow → Bool
running_replay id row = replay_is id row && has_started row.status

abbrev pub finish_replay : ℕ → ℕ → ReplayRow → ReplayRow
finish_replay completed_at events_replayed row = record row {
  completed_at = some completed_at;
  events_replayed = some events_replayed;
  last_error = none;
  status = ReplayStatus.completed;
  updated_at = completed_at;
}

unfoldable pub complete_replay_dispatch : String → ℕ → ℕ → ReplayTables → ReplayTables
complete_replay_dispatch id completed_at events_replayed db = record db {
  replays =
      update_where (running_replay id) (finish_replay completed_at events_replayed) db.replays;
}

abbrev pub fail_replay : ℕ → String → ReplayRow → ReplayRow
fail_replay completed_at error row = record row {
  completed_at = some completed_at;
  last_error = some error;
  status = ReplayStatus.failed;
  updated_at = completed_at;
}

unfoldable pub fail_replay_dispatch : String → ℕ → String → ReplayTables → ReplayTables
fail_replay_dispatch id completed_at error db = record db {
  replays = update_where (replay_is id) (fail_replay completed_at error) db.replays;
}

abbrev in_workspace : Option String → ReplayRow → Bool
in_workspace none row = true
in_workspace (some workspace_id) row = row.workspace_id == workspace_id

-- The public resource of a replay has the columns of its row.
unfoldable pub get_replay : String → Option String → List ReplayRow → Option ReplayRow
get_replay id workspace_id replays =
    find? (λ row. replay_is id row && in_workspace workspace_id row) replays

-- gte(occurredAt, startTime) and lte(occurredAt, endTime) of the replay's mailbox
abbrev pub in_range : ReplayRow → EventRow → Bool
in_range replay event =
    event.mailbox_id == replay.mailbox_id
    && (leb replay.start_time event.occurred_at && leb event.occurred_at replay.end_time)

abbrev pub event_id : EventRow → String
event_id event = event.id

-- The database orders texts by `text_before`.
module _ (text_before : String → String → Bool) where
  -- asc(createdAt), asc(id)
  abbrev pub replay_leq : ReplayRow → ReplayRow → Bool
  replay_leq a b =
      ltb a.created_at b.created_at || eqb a.created_at b.created_at && text_before a.id b.id

  -- asc(occurredAt), asc(id)
  abbrev pub event_leq : EventRow → EventRow → Bool
  event_leq a b =
      ltb a.occurred_at b.occurred_at || eqb a.occurred_at b.occurred_at && text_before a.id b.id

  unfoldable pub find_committed_conflict : CreateReplayRequest → List ReplayRow → Option ReplayRow
  unfolding select_sorted
  find_committed_conflict params replays =
      first (select_sorted replay_leq (requested_conflict params) replays)

  -- The tables as the looks after a deadlock find them.
  unfoldable pub find_committed_conflict_after_race :
      CreateReplayRequest → List (List ReplayRow) → Option ReplayRow
  find_committed_conflict_after_race params [] = none
  find_committed_conflict_after_race params (replays ∷ later) =
      elim (find_committed_conflict params replays) [
        | none ↦ find_committed_conflict_after_race params later
        | some conflict ↦ some conflict
      ]

  -- What becomes of an insertion when the transaction found no conflict: the outcome of the call,
  -- and the table after it.
  abbrev pub insert_replay :
      InsertFate → CreateReplayRequest → List ReplayRow → CreateReplayOutcome × List ReplayRow
  insert_replay inserted params replays =
      (created (new_replay params), replays ++ new_replay params ∷ [])
  insert_replay (overlap_violated later) params replays =
      (conflict_of params (find_committed_conflict params later), later)
  insert_replay (deadlocked at_once after_10 after_25 after_50) params replays = (
    conflict_of params
        (find_committed_conflict_after_race params (at_once ∷ after_10 ∷ after_25 ∷ after_50 ∷ [])),
    after_50,
  )
  insert_replay (refused detail) params replays = (create_failed detail, replays)

  unfoldable pub create_replay :
      InsertFate → CreateReplayRequest → List ReplayRow → CreateReplayOutcome × List ReplayRow
  unfolding find_committed_conflict_after_race
  create_replay fate params replays = elim (find_committed_conflict params replays) [
    | some conflict ↦ (conflict_of params (some conflict), replays)
    | none ↦ insert_replay fate params replays
  ]

  unfoldable pub list_replay_dispatch_targets : ℕ → List ReplayRow → List ReplayRow
  unfolding take select_sorted
  list_replay_dispatch_targets limit replays =
      take limit (select_sorted replay_leq (λ row. is_queued row.status) replays)

  unfoldable pub event_ids_of : ReplayRow → List EventRow → List String
  unfolding select_sorted
  event_ids_of replay events = map event_id (select_sorted event_leq (in_range replay) events)

  abbrev pub dispatch_of : ℕ → ReplayRow → ReplayTables → PreparedReplayDispatch
  dispatch_of started_at queued db = record {
    replay = start_replay started_at queued;
    mailbox_event_ids = event_ids_of queued db.delivery.events;
  }

  unfoldable pub prepare_replay_dispatch :
      String → ℕ → ReplayTables → Option PreparedReplayDispatch × ReplayTables
  unfolding event_ids_of
  prepare_replay_dispatch id started_at db = elim (find? (queued_replay id) db.replays) [
    | none ↦ (none, db)
    | some queued ↦ (
      some (dispatch_of started_at queued db),
      record db { replays = update_where (queued_replay id) (start_replay started_at) db.replays },
    )
  ]
