-- ===== src/Schema.antt =====
-- packages/db/src/schema.ts: the rows of the tables that the stores read and write.
-- A nullable column is an Option. A timestamp column is in milliseconds since the epoch.
use mailmon.Base.{ℕ, String, Bool, Option, none, List, ◌==◌, ◌&&◌}
use mailmon.Contracts.{
  MailboxStatus, MailboxSyncState, MailboxWatchState, SyncRunOutcome, MailboxEventType,
  MailboxEventEnvelope,
}

pub record MailboxRow : Type 0 where
  pub id : String
  pub workspace_id : Option String
  pub provider : String
  pub tenant_external_id : Option String
  pub mailbox_external_id : Option String
  pub email_address : String
  pub status : MailboxStatus
  pub sync_state : MailboxSyncState
  pub watch_state : MailboxWatchState
  pub watch_expiration_at : Option ℕ
  pub watch_last_renewed_at : Option ℕ
  pub watch_last_history_id : Option String
  pub cursor : Option String
  pub active_sync_lease_owner : Option String
  pub active_sync_lease_acquired_at : Option ℕ
  pub active_sync_lease_heartbeat_at : Option ℕ
  pub active_sync_lease_expires_at : Option ℕ
  pub active_sync_run_id : Option String
  pub initialized_at : Option ℕ
  pub last_successful_sync_at : Option ℕ
  pub last_error_code : Option String
  pub last_error_message : Option String
  pub last_error_occurred_at : Option ℕ
  pub last_error_retryable : Option Bool
  pub created_at : ℕ
  pub updated_at : ℕ

-- sync_runs.status: a run that has not ended is `running`.
pub data SyncRunStatus : Type 0 where
  running : SyncRunStatus
  ended : SyncRunOutcome → SyncRunStatus

-- `eventsEmitted` is stored as the decimal text of the number.
pub record SyncRunRow : Type 0 where
  pub id : String
  pub mailbox_id : String
  pub status : SyncRunStatus
  pub lease_owner_id : Option String
  pub started_at : ℕ
  pub completed_at : Option ℕ
  pub events_emitted : Option ℕ
  pub previous_cursor : Option String
  pub next_cursor : Option String
  pub detail : Option String

-- The tables that the sync lease lives in.
pub record SyncTables : Type 0 where
  pub mailboxes : List MailboxRow
  pub sync_runs : List SyncRunRow

-- eq(mailboxes.id, id)
abbrev pub mailbox_is : String → MailboxRow → Bool
mailbox_is id row = row.id == id

-- eq(syncRuns.id, id)
abbrev pub sync_run_is : String → SyncRunRow → Bool
sync_run_is id row = row.id == id

-- The columns of the lease set to null.
abbrev pub without_lease : MailboxRow → MailboxRow
without_lease row = record row {
  active_sync_lease_acquired_at = none;
  active_sync_lease_expires_at = none;
  active_sync_lease_heartbeat_at = none;
  active_sync_lease_owner = none;
  active_sync_run_id = none;
}

pub record ThreadRow : Type 0 where
  pub id : String
  pub mailbox_id : String
  pub provider_thread_id : String
  pub subject : String
  pub last_message_at : ℕ
  pub updated_at : ℕ

pub record MessageRow : Type 0 where
  pub id : String
  pub mailbox_id : String
  pub thread_id : String
  pub provider_message_id : String
  pub provider_thread_id : String
  pub subject : String
  pub from_name : Option String
  pub from_email : String
  pub snippet : String
  pub received_at : ℕ
  pub label_ids : List String
  pub updated_at : ℕ

pub record MailboxEventRow : Type 0 where
  pub id : String
  pub mailbox_id : String
  pub event_type : MailboxEventType
  pub occurred_at : ℕ
  pub payload : MailboxEventEnvelope

-- eq(messages.mailboxId, mailboxId) and eq(messages.providerMessageId, id)
abbrev pub message_is : String → String → MessageRow → Bool
message_is mailbox_id id row = row.mailbox_id == mailbox_id && row.provider_message_id == id

-- eq(threads.mailboxId, mailboxId) and eq(threads.providerThreadId, id)
abbrev pub thread_is : String → String → ThreadRow → Bool
thread_is mailbox_id id row = row.mailbox_id == mailbox_id && row.provider_thread_id == id
