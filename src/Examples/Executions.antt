-- ===== src/Examples/Executions.antt =====
-- Syncs of the example's mailbox.
use mailmon.Base.{String, ◌≡◌, refl, true, false, Option, none, some, [], ◌∷◌, String_discrete}
use mailmon.Base.Table.{find?}
use mailmon.Commit.{apply_mailbox_sync_commit}
use mailmon.Commit.Guarded.{commit_at}
use mailmon.Commit.State.{CommitTables}
use mailmon.Contracts.{MailboxSyncSnapshot, SyncRunOutcome}
use mailmon.Cursor.{parse_decimal_history_cursor}
use mailmon.Examples.Commits.{later_first, digest, message, tables}
use mailmon.Examples.Rows.{mailbox_row}
use mailmon.Execution.{run_acquired_mailbox_sync_execution, run_mailbox_sync}
use mailmon.Execution.Heartbeat.{late_heartbeat-fails}
use mailmon.Execution.Outcomes.{run_acquired-releases, run-skips_while_held, run_acquired-completes}
use mailmon.Execution.Steps.{
  SyncRequest, skipped_due_to_active_lease, sync_failed, Provided, fetched, work_first,
  heartbeat_before_commit, heartbeat_after_commit, commit_of, mailbox_sync_lease_lost,
}
use mailmon.Lease.Calls.{held_by}
use mailmon.Schema.{SyncRunRow, SyncRunStatus, sync_run_is}
use mailmon.SyncRuns.{mailbox_cursor}

abbrev request_of : String → SyncRequest
request_of owner = record {
  mailbox_id = "m";
  sync_run_id = "r";
  lease_owner_id = owner;
  started_at = 30;
  lease_ttl_ms = 60;
  completed_at = 50;
  commit_checked_at = 40;
  ended_at = 60;
  released_at = 70;
}

abbrev snapshot : MailboxSyncSnapshot
snapshot = record { threads = []; messages = message ∷ []; deleted_provider_message_ids = [] }

abbrev provided : Provided
provided = fetched snapshot (some "12")

abbrev provide : Option String → Provided
provide cursor = provided

abbrev idle : CommitTables → CommitTables
idle db = db

run_acquired-releases_example :
    held_by "m" "worker" 0
      (run_acquired_mailbox_sync_execution later_first digest
        (request_of "worker")
        provided
        heartbeat_before_commit
        tables).1.sync
    ≡ false
run_acquired-releases_example =
    run_acquired-releases later_first digest (request_of "worker") provided heartbeat_before_commit
      tables 0

run-skips_while_held_example :
    let r =
      run_mailbox_sync later_first digest provide idle (request_of "other") work_first tables in
    (r.0 ≡ skipped_due_to_active_lease (some "worker"))
    × (r.1.sync.mailboxes ≡ tables.sync.mailboxes)
    × (r.1.messages ≡ tables.messages)
    × (r.1.threads ≡ tables.threads)
    × (r.1.mailbox_events ≡ tables.mailbox_events)
unfolding find? String_discrete
run-skips_while_held_example =
    run-skips_while_held later_first digest provide idle (request_of "other") work_first tables
      mailbox_row "worker" (refl, tt) refl refl refl

late_heartbeat-fails_example :
    let r =
      run_acquired_mailbox_sync_execution later_first digest
        (request_of "worker")
        provided
        heartbeat_after_commit
        tables in
    (run : SyncRunRow) × (r.0 ≡ sync_failed (mailbox_sync_lease_lost "m"))
    × (r.1.messages
        ≡ (commit_at later_first digest 40
            (commit_of (request_of "worker") snapshot (some "12"))
            tables).1.messages)
    × (find? (sync_run_is "r") r.1.sync.sync_runs ≡ some run)
    × (run.status ≡ SyncRunStatus.ended SyncRunOutcome.lease_lost)
    × (run.next_cursor ≡ none)
unfolding apply_mailbox_sync_commit String_discrete parse_decimal_history_cursor
late_heartbeat-fails_example =
    late_heartbeat-fails later_first digest (request_of "worker") snapshot (some "12") tables refl

run_acquired-completes_example :
    (held_by "m" "worker" 40 tables.sync ≡ true)
    × (mailbox_cursor "m"
          (run_acquired_mailbox_sync_execution later_first digest
            (request_of "worker")
            provided
            work_first
            tables).1.sync.mailboxes
        ≡ some "12")
unfolding run_acquired_mailbox_sync_execution apply_mailbox_sync_commit String_discrete
    parse_decimal_history_cursor
run_acquired-completes_example =
    run_acquired-completes later_first digest (request_of "worker") provided work_first tables _
      (some "12") refl
