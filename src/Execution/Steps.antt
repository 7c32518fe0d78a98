-- ===== src/Execution/Steps.antt =====
-- The types and steps of packages/core/src/mailbox-sync-execution.ts.
use Prim.Native.String.{◌++◌ as append}
use mailmon.Base.{ℕ, ◌+◌, String, Bool, true, false, Option, none, some, List, ◌==◌, if◌then◌else◌}
use mailmon.Commit.State.{Commit, CommitTables, CommitResult, committed, failed, threw}
use mailmon.Contracts.{MailboxSyncSnapshot, MailboxStatus, ProblemDetails, SyncRunOutcome}
use mailmon.Lease.{LeaseRequest, release_mailbox_sync_lease}
use mailmon.OperationalState.{is_terminal_mailbox_sync_problem}
use mailmon.SyncRuns.{start_sync_run, complete_sync_run}

-- What mailboxProvider.syncMailbox gives: a snapshot and the next cursor, or a problem.
pub data Provided : Type 0 where
  fetched : MailboxSyncSnapshot → Option String → Provided
  refused : ProblemDetails → Provided

-- Which side of the race settles first: the work, or a heartbeat whose renewal was refused, before
-- the commit or after it, while the deliveries are being scheduled; or, after the commit, the
-- scheduling of the deliveries dies, which is a defect and no problem.
pub data Race : Type 0 where
  work_first heartbeat_before_commit heartbeat_after_commit scheduling_dies : Race

-- The new ids and the times of one call of runMailboxSync.
pub record SyncRequest : Type 0 where
  pub mailbox_id : String
  pub sync_run_id : String
  pub lease_owner_id : String
  pub started_at : ℕ
  pub lease_ttl_ms : ℕ
  pub completed_at : ℕ
  pub commit_checked_at : ℕ
  pub ended_at : ℕ
  pub released_at : ℕ

-- The end of the work inside the race; `died` is an exception, which nothing catches.
pub data Work : Type 0 where
  committed_events : List String → Option String → Work
  work_failed : ProblemDetails → Work
  died : Work

-- SyncMailboxResult, a failure, or an exception. A completed sync carries the ids of the events whose
-- deliveries it schedules.
pub data SyncOutcome : Type 0 where
  completed : List String → Option String → SyncOutcome
  reconnect_required : SyncOutcome
  skipped_due_to_active_lease : Option String → SyncOutcome
  sync_failed : ProblemDetails → SyncOutcome
  sync_died : SyncOutcome

abbrev pub mailbox_not_found : String → ProblemDetails
mailbox_not_found mailbox_id = record {
  code = "mailbox_not_found";
  status = 404;
  detail = append "Mailbox " (append mailbox_id " does not exist in the current workspace.");
  retryable = false;
}

abbrev pub mailbox_sync_lease_lost : String → ProblemDetails
mailbox_sync_lease_lost mailbox_id = record {
  code = "mailbox_sync_lease_lost";
  status = 409;
  detail = append "Mailbox " (append mailbox_id " lost its active sync lease while processing.");
  retryable = true;
}

-- completeSyncRun
abbrev pub complete_run :
    SyncRequest → ℕ → SyncRunOutcome → Option String → CommitTables → CommitTables
complete_run request completed_at status detail db = record db {
  sync =
      complete_sync_run
        (record {
          sync_run_id = request.sync_run_id;
          mailbox_id = request.mailbox_id;
          completed_at = completed_at;
          status = status;
          events_emitted = 0;
          next_cursor = none;
          detail = detail;
        })
        db.sync;
}

unfoldable pub classify_acquired_execution_failure : ProblemDetails → SyncRunOutcome
unfolding is_terminal_mailbox_sync_problem
classify_acquired_execution_failure problem =
    if is_terminal_mailbox_sync_problem problem.code
    then SyncRunOutcome.reconnect_required
    else if problem.code == "mailbox_sync_lease_lost"
    then SyncRunOutcome.lease_lost
    else SyncRunOutcome.failed_after_lease_acquired

unfoldable pub complete_acquired_execution_failure :
    SyncRequest → ProblemDetails → CommitTables → SyncOutcome × CommitTables
unfolding classify_acquired_execution_failure
complete_acquired_execution_failure request problem db = (
  (if is_terminal_mailbox_sync_problem problem.code
      then reconnect_required
      else sync_failed problem),
  complete_run request request.ended_at (classify_acquired_execution_failure problem)
      (some problem.code) db,
)

abbrev pub release : SyncRequest → CommitTables → CommitTables
release request db = record db {
  sync =
      release_mailbox_sync_lease request.released_at request.mailbox_id request.lease_owner_id
        db.sync;
}

abbrev pub commit_of : SyncRequest → MailboxSyncSnapshot → Option String → Commit
commit_of request snapshot next_cursor = record {
  mailbox_id = request.mailbox_id;
  lease_owner_id = request.lease_owner_id;
  next_cursor = next_cursor;
  snapshot = snapshot;
  sync_run_id = request.sync_run_id;
  synced_at = request.completed_at;
}

abbrev pub work_of : SyncRequest → Option String → CommitResult → Work
work_of request next_cursor (committed true ids) = committed_events ids next_cursor
work_of request next_cursor (committed false ids) =
    work_failed (mailbox_sync_lease_lost request.mailbox_id)
work_of request next_cursor (failed problem) = work_failed problem
work_of request next_cursor threw = died

-- Only work that committed goes on to schedule deliveries, where a heartbeat can overtake it.
abbrev pub interrupted : SyncRequest → Work → Work
interrupted request (committed_events ids next_cursor) =
    work_failed (mailbox_sync_lease_lost request.mailbox_id)
interrupted request work = work

-- Work that did not commit schedules nothing.
abbrev pub unscheduled : Work → Work
unscheduled (committed_events ids next_cursor) = died
unscheduled work = work

abbrev pub settle : SyncRequest → Work → CommitTables → SyncOutcome × CommitTables
settle request (committed_events ids next_cursor) db = (completed ids next_cursor, db)
settle request (work_failed problem) db = complete_acquired_execution_failure request problem db
settle request died db = (sync_died, db)

abbrev pub lease_request : SyncRequest → LeaseRequest
lease_request request = record {
  mailbox_id = request.mailbox_id;
  sync_run_id = request.sync_run_id;
  lease_owner_id = request.lease_owner_id;
  acquired_at = request.started_at;
  expires_at = request.started_at + request.lease_ttl_ms;
}

abbrev pub start : SyncRequest → CommitTables → CommitTables
start request db = record db {
  sync = (start_sync_run request.sync_run_id request.started_at request.mailbox_id db.sync).1;
}

abbrev pub is_reconnect_required : MailboxStatus → Bool
is_reconnect_required MailboxStatus.reconnect_required = true
is_reconnect_required _ = false
