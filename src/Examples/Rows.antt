-- ===== src/Examples/Rows.antt =====
-- The tables of the examples: one mailbox, whose lease `worker` holds until 100, and one run.
use mailmon.Base.{true, none, some, [], ◌∷◌}
use mailmon.Contracts.{MailboxStatus, MailboxSyncState, MailboxWatchState}
use mailmon.Schema.{MailboxRow, SyncRunRow, SyncRunStatus, SyncTables}

abbrev pub mailbox_row : MailboxRow
mailbox_row = record {
  id = "m";
  workspace_id = some "w";
  provider = "gmail";
  tenant_external_id = some "t";
  mailbox_external_id = some "x";
  email_address = "a@b.c";
  status = MailboxStatus.active;
  sync_state = MailboxSyncState.healthy;
  watch_state = MailboxWatchState.active;
  watch_expiration_at = none;
  watch_last_renewed_at = none;
  watch_last_history_id = none;
  cursor = some "10";
  active_sync_lease_owner = some "worker";
  active_sync_lease_acquired_at = some 0;
  active_sync_lease_heartbeat_at = some 0;
  active_sync_lease_expires_at = some 100;
  active_sync_run_id = some "r";
  initialized_at = none;
  last_successful_sync_at = none;
  last_error_code = none;
  last_error_message = none;
  last_error_occurred_at = none;
  last_error_retryable = some true;
  created_at = 0;
  updated_at = 0;
}

abbrev pub run_row : SyncRunRow
run_row = record {
  id = "r";
  mailbox_id = "m";
  status = SyncRunStatus.running;
  lease_owner_id = some "worker";
  started_at = 0;
  completed_at = none;
  events_emitted = none;
  previous_cursor = some "10";
  next_cursor = none;
  detail = none;
}

abbrev pub sync_tables : SyncTables
sync_tables = record { mailboxes = mailbox_row ∷ []; sync_runs = run_row ∷ [] }
