-- ===== src/Examples/Commits.antt =====
-- A commit on the example's mailbox, a second worker's, and what they leave.
use mailmon.Base.{
  length, unequal, ℕ, ◌≤◌, String, ◌≡◌, ◌⊎◌, refl, Bool, true, false, none, some, List, [], ◌∷◌,
  String_discrete, arith, if◌then◌else◌, All,
}
use mailmon.Base.Table.{find?}
use mailmon.Base.Texts.{includes}
use mailmon.Commit.{apply_mailbox_sync_commit}
use mailmon.Commit.Contents.{stored_row, commit-messages}
use mailmon.Commit.Cursors.{run_commits, run_commits-cursor}
use mailmon.Commit.Fencing.{
  commit-advances, commit-fenced, commit-all_or_nothing, commit-records_run,
}
use mailmon.Commit.Guarded.{is_applied, event_ids, commit_at}
use mailmon.Commit.State.{CommitTables, Commit, CommitResult, committed}
use mailmon.Commit.Stored.{event_stored, commit-stores_events}
use mailmon.Contracts.{SyncRunOutcome, CanonicalMessageRecord}
use mailmon.Cursor.{is_mailbox_cursor_regression, parse_decimal_history_cursor}
use mailmon.Execution.Once.{commit-once}
use mailmon.Execution.Writes.{LeaseWrite, calls, run_writes}
use mailmon.Lease.Calls.{acquires, releases}
use mailmon.Examples.Rows.{sync_tables}
use mailmon.Lease.Calls.{held_by}
use mailmon.Schema.{message_is, SyncRunRow, SyncRunStatus, sync_run_is}
use mailmon.SyncRuns.{mailbox_cursor}

abbrev pub later_first : String → String → Bool
later_first s t = false

abbrev pub digest : String → String
digest s = s

abbrev pub message : CanonicalMessageRecord
message = record {
  id = "msg_1";
  thread_id = "thr_1";
  provider_message_id = "p1";
  provider_thread_id = "t1";
  subject = "Hello";
  from_name = none;
  from_email = "a@example.com";
  snippet = "";
  received_at = 5;
  label_ids = "INBOX" ∷ [];
}

abbrev pub commit_by : String → Commit
commit_by owner = record {
  mailbox_id = "m";
  lease_owner_id = owner;
  next_cursor = some "12";
  snapshot = record {
    threads = [];
    messages = message ∷ [];
    deleted_provider_message_ids = "p0" ∷ [];
  };
  sync_run_id = "r";
  synced_at = 50;
}

abbrev pub tables : CommitTables
tables = record { sync = sync_tables; messages = []; threads = []; mailbox_events = [] }

abbrev run_at : ℕ → String → CommitTables → CommitResult × CommitTables
run_at now owner db = commit_at later_first digest now (commit_by owner) db

applied : is_applied (run_at 40 "worker" tables).0 ≡ true
unfolding apply_mailbox_sync_commit String_discrete parse_decimal_history_cursor
applied = refl

commit-advances_example :
    (held_by "m" "worker" 40 tables.sync ≡ true)
    × (is_mailbox_cursor_regression (mailbox_cursor "m" tables.sync.mailboxes) (some "12") ≡ false)
    × (mailbox_cursor "m" (run_at 40 "worker" tables).1.sync.mailboxes ≡ some "12")
    × (held_by "m" "worker" 41 (run_at 40 "worker" tables).1.sync ≡ false)
commit-advances_example =
    commit-advances later_first digest 40 (commit_by "worker") tables "worker" 41 applied

commit-all_or_nothing_example :
    (is_applied (run_at 100 "worker" tables).0 ≡ true) ⊎ ((run_at 100 "worker" tables).1 ≡ tables)
commit-all_or_nothing_example =
    commit-all_or_nothing later_first digest 100 (commit_by "worker") tables

commit-fenced_example : run_at 40 "other" tables ≡ (committed false [], tables)
unfolding find? String_discrete
commit-fenced_example =
    commit-fenced later_first digest 40 (commit_by "other") tables "worker" refl
      (unequal "other" "worker" refl)

commit-records_run_example :
    let r = run_at 40 "worker" tables in
    (run : SyncRunRow) × (find? (sync_run_is "r") r.1.sync.sync_runs ≡ some run)
    × (run.status ≡ SyncRunStatus.ended SyncRunOutcome.completed)
    × (run.next_cursor ≡ some "12")
    × (run.previous_cursor ≡ mailbox_cursor "m" tables.sync.mailboxes)
    × (run.events_emitted ≡ some (length (event_ids r.0)))
commit-records_run_example =
    commit-records_run later_first digest 40 (commit_by "worker") tables applied

-- In between, another worker's lease on another mailbox, and a late release.
abbrev others : List LeaseWrite
others =
    calls (
      acquires record {
        mailbox_id = "other";
        sync_run_id = "r2";
        lease_owner_id = "worker";
        acquired_at = 45;
        expires_at = 145;
      })
    ∷ calls (releases 50 "m" "worker")
    ∷ []

commit-once_example :
    apply_mailbox_sync_commit later_first digest 60
      (commit_by "worker")
      (run_writes later_first digest others (run_at 40 "worker" tables).1)
    ≡ (committed false [], run_writes later_first digest others (run_at 40 "worker" tables).1)
commit-once_example =
    commit-once later_first digest 40 60 (commit_by "worker") (commit_by "worker") others tables
      refl (unequal "other" "m" refl, (tt, tt)) applied

commit-messages_example : find? (message_is "m" "p1") (run_at 40 "worker" tables).1.messages ≡ (
    if includes "p1" ("p0" ∷ [])
    then none
    else stored_row 40 "m" "p1" (message ∷ []) (find? (message_is "m" "p1") tables.messages))
commit-messages_example =
    commit-messages later_first digest 40 (commit_by "worker") tables "p1" applied

commit-stores_events_example :
    All
      (λ id. event_stored id (run_at 40 "worker" tables).1.mailbox_events ≡ true)
      (event_ids (run_at 40 "worker" tables).0)
commit-stores_events_example =
    commit-stores_events later_first digest 40 (commit_by "worker") tables applied

abbrev attempts : List (ℕ × Commit)
attempts = (30, commit_by "other") ∷ (40, commit_by "worker") ∷ (60, commit_by "worker") ∷ []

run_commits-cursor_example :
    (t : String) × (m : ℕ) × (mailbox_cursor "m"
        (run_commits later_first digest attempts tables).sync.mailboxes
      ≡ some t)
    × (parse_decimal_history_cursor t ≡ some m)
    × (10 ≤ m)
unfolding find? String_discrete parse_decimal_history_cursor
run_commits-cursor_example =
    run_commits-cursor later_first digest attempts tables "m" 10 ("10", 10, refl, refl, omega arith)
