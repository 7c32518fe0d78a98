-- ===== src/Replay/Tables.antt =====
-- The table replays of packages/db/src/schema.ts, the requests and answers of its store, and the
-- tables that a dispatch of replays works on.
use mailmon.Base.{ℕ, String, Bool, true, false, Option, List, ◌==◌}
use mailmon.Contracts.{ReplayStatus}
use mailmon.Delivery.Rows.{DeliveryTables}

pub record ReplayRow : Type 0 where
  pub id : String
  pub workspace_id : String
  pub mailbox_id : String
  pub webhook_endpoint_id : String
  pub status : ReplayStatus
  pub start_time : ℕ
  pub end_time : ℕ
  pub events_replayed : Option ℕ
  pub last_error : Option String
  pub started_at : Option ℕ
  pub completed_at : Option ℕ
  pub created_at : ℕ
  pub updated_at : ℕ

pub record ReplayTables : Type 0 where
  pub replays : List ReplayRow
  pub delivery : DeliveryTables

-- The parameters of createReplay.
pub record CreateReplayRequest : Type 0 where
  pub id : String
  pub workspace_id : String
  pub mailbox_id : String
  pub webhook_endpoint_id : String
  pub start_time : ℕ
  pub end_time : ℕ
  pub created_at : ℕ

-- What the database does with the insertion of a replay. Where another transaction wins the race,
-- the tables that this call finds later are given.
pub data InsertFate : Type 0 where
  inserted : InsertFate
  overlap_violated : (later : List ReplayRow) → InsertFate
  deadlocked : (at_once after_10 after_25 after_50 : List ReplayRow) → InsertFate
  refused : (detail : String) → InsertFate

pub data CreateReplayOutcome : Type 0 where
  created : ReplayRow → CreateReplayOutcome
  replay_conflict : (mailbox_id webhook_endpoint_id replay_id : String) → CreateReplayOutcome
  create_failed : (detail : String) → CreateReplayOutcome

pub record PreparedReplayDispatch : Type 0 where
  pub replay : ReplayRow
  pub mailbox_event_ids : List String

abbrev pub replay_is : String → ReplayRow → Bool
replay_is id row = row.id == id

-- inArray(status, ["queued", "running"])
abbrev pub is_active_replay : ReplayStatus → Bool
is_active_replay ReplayStatus.queued = true
is_active_replay ReplayStatus.running = true
is_active_replay _ = false
