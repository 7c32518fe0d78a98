-- ===== src/SyncRuns.antt =====
-- packages/db/src/persistence/sync-runs.ts: the record of each sync run, and what the end of a run
-- leaves in its mailbox.
use mailmon.Base.{ℕ, String, Bool, true, false, Option, none, some, List, [], ◌∷◌, ◌++◌, is_text}
use mailmon.Base.Table.{find?, update_where}
use mailmon.Contracts.{SyncRunOutcome, StartedSyncRun, CompletedSyncRun}
use mailmon.OperationalState.Update.{apply_completed_sync_run}
use mailmon.Schema.{MailboxRow, SyncRunRow, SyncRunStatus, SyncTables, mailbox_is, sync_run_is}

abbrev pub mailbox_cursor : String → List MailboxRow → Option String
mailbox_cursor mailbox_id mailboxes = elim (find? (mailbox_is mailbox_id) mailboxes) [
  | none ↦ none
  | some mailbox ↦ mailbox.cursor
]

-- `id` is the new random id and `now` the clock, of createStartedSyncRun.
unfoldable pub start_sync_run : String → ℕ → String → SyncTables → StartedSyncRun × SyncTables
start_sync_run id now mailbox_id db = (
  record { sync_run_id = id; mailbox_id = mailbox_id; started_at = now },
  record db {
    sync_runs =
        db.sync_runs
        ++ record {
          id = id;
          mailbox_id = mailbox_id;
          status = SyncRunStatus.running;
          lease_owner_id = none;
          started_at = now;
          completed_at = none;
          events_emitted = none;
          previous_cursor = mailbox_cursor mailbox_id db.mailboxes;
          next_cursor = none;
          detail = none;
        }
          ∷ [];
  },
)

abbrev pub end_run : CompletedSyncRun → SyncRunRow → SyncRunRow
end_run result run = record run {
  completed_at = some result.completed_at;
  detail = result.detail;
  events_emitted = some result.events_emitted;
  next_cursor = result.next_cursor;
  status = SyncRunStatus.ended result.status;
}

-- The early return of completeSyncRun.
abbrev pub leaves_mailbox : SyncRunOutcome → Option String → Bool
leaves_mailbox SyncRunOutcome.skipped_due_to_active_lease detail = true
leaves_mailbox SyncRunOutcome.reconnect_required detail =
    is_text detail "mailbox_reconnect_required"
leaves_mailbox _ detail = false

unfoldable pub complete_sync_run : CompletedSyncRun → SyncTables → SyncTables
unfolding apply_completed_sync_run
complete_sync_run result db =
    let sync_runs = update_where (sync_run_is result.sync_run_id) (end_run result) db.sync_runs in
    elim (leaves_mailbox result.status result.detail) [
      | true ↦ record db { sync_runs = sync_runs }
      | false ↦ record {
        sync_runs = sync_runs;
        mailboxes =
            update_where (mailbox_is result.mailbox_id) (apply_completed_sync_run result)
              db.mailboxes;
      }
    ]
