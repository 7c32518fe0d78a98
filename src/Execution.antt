-- ===== src/Execution.antt =====
-- packages/core/src/mailbox-sync-execution.ts: one sync of a mailbox, from the start of its run to
-- the release of its lease. The provider is a parameter, and so is what others do to the tables
-- while it fetches (`meanwhile`, which includes this worker's own heartbeats). The times and new
-- ids are arguments.
pub mod Steps
pub mod Outcomes
pub mod Heartbeat
pub mod Writes
pub mod Exclusion
pub mod Once
use Prim.Native.String.{◌++◌ as append}
use mailmon.Base.{
  ℕ, ◌+◌, String, Bool, true, false, Option, none, some, List, [], length, ◌==◌, if◌then◌else◌,
}
use mailmon.Base.Table.{find?}
use mailmon.Commit.{apply_mailbox_sync_commit}
use mailmon.Commit.State.{Commit, CommitTables, CommitResult, committed, failed, threw}
use mailmon.Contracts.{
  MailboxSyncSnapshot, MailboxStatus, ProblemDetails, SyncRunOutcome, CompletedSyncRun,
  StartedSyncRun,
}
use mailmon.Lease.{
  LeaseRequest, LeaseAcquisition, acquire_mailbox_sync_lease, release_mailbox_sync_lease,
}
use mailmon.OperationalState.{is_terminal_mailbox_sync_problem}
use mailmon.Schema.{MailboxRow, SyncTables, mailbox_is}
use mailmon.SyncRuns.{start_sync_run, complete_sync_run, mailbox_cursor}
use mailmon.Execution.Steps.{
  Provided, fetched, refused, Race, work_first, heartbeat_before_commit, heartbeat_after_commit,
  scheduling_dies, unscheduled, SyncRequest, Work, committed_events, work_failed, died, SyncOutcome,
  completed, reconnect_required, skipped_due_to_active_lease, sync_failed, sync_died,
  mailbox_not_found, mailbox_sync_lease_lost, complete_run, complete_acquired_execution_failure,
  release, commit_of, work_of, interrupted, settle, lease_request, start, is_reconnect_required,
}

module _ (text_before : String → String → Bool) (sha256_hex : String → String) where
  unfoldable pub commit_provider_sync_result :
      SyncRequest → Provided → CommitTables → Work × CommitTables
  commit_provider_sync_result request (refused problem) db = (work_failed problem, db)
  commit_provider_sync_result request (fetched snapshot next_cursor) db =
      let (result, db') =
        apply_mailbox_sync_commit text_before sha256_hex request.commit_checked_at
          (commit_of request snapshot next_cursor) db in
      (work_of request next_cursor result, db')

  -- The race, and what it leaves to the error handler.
  unfoldable pub race : SyncRequest → Provided → Race → CommitTables → Work × CommitTables
  unfolding commit_provider_sync_result
  race request provided work_first db = commit_provider_sync_result request provided db
  race request provided heartbeat_before_commit db =
      (work_failed (mailbox_sync_lease_lost request.mailbox_id), db)
  race request provided heartbeat_after_commit db =
      let (work, db') = commit_provider_sync_result request provided db in
      (interrupted request work, db')
  race request provided scheduling_dies db =
      let (work, db') = commit_provider_sync_result request provided db in (unscheduled work, db')

  unfoldable pub run_acquired_mailbox_sync_execution :
      SyncRequest → Provided → Race → CommitTables → SyncOutcome × CommitTables
  unfolding race complete_acquired_execution_failure
  run_acquired_mailbox_sync_execution request provided first db =
      let (work, db') = race request provided first db in
      let (outcome, settled) = settle request work db' in (outcome, release request settled)

  module _ (provide : Option String → Provided) (meanwhile : CommitTables → CommitTables) where
    -- acquireMailboxSyncExecution, and what follows it. `db` has the started run.
    unfoldable pub run_started :
        SyncRequest → Option String → Race → CommitTables → SyncOutcome × CommitTables
    unfolding run_acquired_mailbox_sync_execution acquire_mailbox_sync_lease
    run_started request cursor first db =
        let (acquisition, sync) = acquire_mailbox_sync_lease (lease_request request) db.sync in
        if acquisition.acquired
        then run_acquired_mailbox_sync_execution request (provide cursor) first
            (meanwhile (record db { sync = sync }))
        else (
          skipped_due_to_active_lease acquisition.lease_owner_id,
          complete_run request request.ended_at SyncRunOutcome.skipped_due_to_active_lease none
              (record db { sync = sync }),
        )

    unfoldable pub run_mailbox_sync : SyncRequest → Race → CommitTables → SyncOutcome × CommitTables
    unfolding run_started find?
    run_mailbox_sync request first db =
        elim (find? (mailbox_is request.mailbox_id) db.sync.mailboxes) [
          | none ↦ (sync_failed (mailbox_not_found request.mailbox_id), db)
          | some mailbox ↦
              if is_reconnect_required mailbox.status
              then (
                reconnect_required,
                complete_run request request.ended_at SyncRunOutcome.reconnect_required
                    (some "mailbox_reconnect_required") (start request db),
              )
              else run_started request (mailbox_cursor request.mailbox_id db.sync.mailboxes) first
                  (start request db)
        ]
