-- ===== src/Execution/Heartbeat.antt =====
-- A heartbeat that is refused because its own worker's commit freed the lease.
use mathlib.Core.Option
use mailmon.Base.{
  String, ◌≡◌, refl, ap, ◌∙◌, Bool, true, false, Option, none, some, String_discrete, arith,
}
use mailmon.Base.Table.{find?, find?-update_where, find?_sound}
use mailmon.Commit.Fencing.{commit-records_run}
use mailmon.Commit.Guarded.{is_applied, commit_at}
use mailmon.Commit.State.{CommitResult, committed, failed, threw, CommitTables}
use mailmon.Contracts.{SyncRunOutcome, MailboxSyncSnapshot}
use mailmon.Execution.{commit_provider_sync_result, race, run_acquired_mailbox_sync_execution}
use mailmon.Execution.Steps.{
  SyncRequest, sync_failed, fetched, heartbeat_after_commit, settle, interrupted, work_of,
  commit_of, mailbox_sync_lease_lost, complete_acquired_execution_failure,
  classify_acquired_execution_failure, complete_run,
}
use mailmon.OperationalState.{is_terminal_mailbox_sync_problem}
use mailmon.Lease.{release_mailbox_sync_lease}
use mailmon.Schema.{SyncRunRow, SyncRunStatus, sync_run_is}
use mailmon.SyncRuns.{complete_sync_run, end_run}

module _ (text_before : String → String → Bool) (sha256_hex : String → String) where
  settle-interrupted :
      (request : SyncRequest) (next : Option String) (result : CommitResult) (db : CommitTables)
      → is_applied result ≡ true
      → settle request (interrupted request (work_of request next result)) db ≡ (
        sync_failed (mailbox_sync_lease_lost request.mailbox_id),
        complete_run request request.ended_at SyncRunOutcome.lease_lost
            (some "mailbox_sync_lease_lost")
            db,
      )
  unfolding complete_acquired_execution_failure classify_acquired_execution_failure
      is_terminal_mailbox_sync_problem String_discrete
  settle-interrupted request next (committed true ids) db applied = refl
  settle-interrupted request next (committed false ids) db applied = cc
  settle-interrupted request next (failed problem) db applied = cc
  settle-interrupted request next threw db applied = cc

  -- The last of the statements on a run wins.
  complete_run-status :
      (request : SyncRequest) (db : CommitTables) (run : SyncRunRow)
      → find? (sync_run_is request.sync_run_id) db.sync.sync_runs ≡ some run
      → (after : SyncRunRow) × (find?
            (sync_run_is request.sync_run_id)
            (complete_run request request.ended_at SyncRunOutcome.lease_lost
              (some "mailbox_sync_lease_lost")
              db).sync.sync_runs
          ≡ some after)
        × (after.status ≡ SyncRunStatus.ended SyncRunOutcome.lease_lost)
        × (after.next_cursor ≡ none)
  unfolding complete_sync_run
  complete_run-status request db run found = (
    ended,
    find?-update_where (sync_run_is request.sync_run_id) (sync_run_is request.sync_run_id) close
          db.sync.sync_runs (λ r. refl)
        ∙ ap (Option.map _) found
        ∙ ground (arith, find?_sound (sync_run_is request.sync_run_id) db.sync.sync_runs run found),
    refl,
    refl,
  )
    where
      close : SyncRunRow → SyncRunRow
      close = end_run (record {
        sync_run_id = request.sync_run_id;
        mailbox_id = request.mailbox_id;
        completed_at = request.ended_at;
        status = SyncRunOutcome.lease_lost;
        events_emitted = 0;
        next_cursor = none;
        detail = some "mailbox_sync_lease_lost";
      })

      ended : SyncRunRow
      ended = close run

  -- A heartbeat that is refused after a commit that was applied, while the deliveries are being
  -- scheduled, makes the sync fail as having lost its lease: its messages stay committed, but its run
  -- is recorded as having lost the lease, without a cursor.
  pub late_heartbeat-fails :
      (request : SyncRequest) (snapshot : MailboxSyncSnapshot) (next : Option String)
      (db : CommitTables)
      → is_applied
          (commit_at text_before sha256_hex request.commit_checked_at
            (commit_of request snapshot next)
            db).0
        ≡ true
      → let r =
          run_acquired_mailbox_sync_execution text_before sha256_hex request
            (fetched snapshot next)
            heartbeat_after_commit
            db in
        (run : SyncRunRow) × (r.0 ≡ sync_failed (mailbox_sync_lease_lost request.mailbox_id))
        × (r.1.messages
            ≡ (commit_at text_before sha256_hex request.commit_checked_at
                (commit_of request snapshot next)
                db).1.messages)
        × (find? (sync_run_is request.sync_run_id) r.1.sync.sync_runs ≡ some run)
        × (run.status ≡ SyncRunStatus.ended SyncRunOutcome.lease_lost)
        × (run.next_cursor ≡ none)
  unfolding run_acquired_mailbox_sync_execution race commit_provider_sync_result
      release_mailbox_sync_lease
  late_heartbeat-fails request snapshot next db applied =
      let commit = commit_of request snapshot next in
      let (result, db') = commit_at text_before sha256_hex request.commit_checked_at commit db in
      let recorded =
        commit-records_run text_before sha256_hex request.commit_checked_at commit db applied in
      let (after, there, status, cursor) = complete_run-status request db' recorded.0 recorded.1 in
      rw (settle-interrupted request next result db' applied)
        (after, refl, refl, there, status, cursor)
