-- ===== src/Commit/State.antt =====
-- The tables, parameters, guards and last statements of the transaction of
-- packages/db/src/persistence/mailbox-sync-commit.ts.
use Prim.Native.String.{◌++◌ as append}
use mailmon.Base.{ℕ, String, Bool, false, ◌&&◌, Option, none, some, List, is_text, if◌then◌else◌}
use mailmon.Base.Table.{find?, update_where}
use mailmon.Contracts.{MailboxSyncSnapshot, ProblemDetails, MailboxSyncState, SyncRunOutcome}
use mailmon.Cursor.{is_mailbox_cursor_regression}
use mailmon.Lease.{lease_runs}
use mailmon.Schema.{
  MailboxRow, SyncRunRow, SyncRunStatus, SyncTables, ThreadRow, MessageRow, MailboxEventRow,
  mailbox_is, sync_run_is, without_lease,
}

pub record CommitTables : Type 0 where
  pub sync : SyncTables
  pub messages : List MessageRow
  pub threads : List ThreadRow
  pub mailbox_events : List MailboxEventRow

-- The parameters of applyMailboxSyncCommit; `syncedAtDate` is `syncedAt`.
pub record Commit : Type 0 where
  pub mailbox_id : String
  pub lease_owner_id : String
  pub next_cursor : Option String
  pub snapshot : MailboxSyncSnapshot
  pub sync_run_id : String
  pub synced_at : ℕ

-- MailboxSyncApplyTransactionResult, and `threw` for an exception, which rolls the transaction back.
pub data CommitResult : Type 0 where
  -- applied, mailboxEventIds
  committed : Bool → List String → CommitResult
  failed : ProblemDetails → CommitResult
  threw : CommitResult

abbrev pub guard_active_lease : MailboxRow → String → ℕ → Bool
guard_active_lease row lease_owner_id lease_check_at =
    is_text row.active_sync_lease_owner lease_owner_id
    && lease_runs lease_check_at row.active_sync_lease_expires_at

abbrev cursor_text : Option String → String
cursor_text none = "null"
cursor_text (some cursor) = cursor

-- mailboxCursorRegressed of packages/core/src/problems.ts
unfoldable pub mailbox_cursor_regressed : String → String → Option String → ProblemDetails
mailbox_cursor_regressed mailbox_id current_cursor next_cursor = record {
  code = "mailbox_cursor_regressed";
  status = 409;
  detail = append "Mailbox " (
      append mailbox_id (
        append " attempted to move its cursor backward from "
          (append current_cursor (append " to " (append (cursor_text next_cursor) ".")))));
  retryable = false;
}

unfoldable pub guard_cursor_progression : Commit → MailboxRow → Option ProblemDetails
unfolding is_mailbox_cursor_regression
guard_cursor_progression commit row = elim row.cursor [
  | none ↦ none
  | some cursor ↦
      if is_mailbox_cursor_regression (some cursor) commit.next_cursor
      then some (mailbox_cursor_regressed commit.mailbox_id cursor commit.next_cursor)
      else none
]

-- params.initializedAt ?? params.syncedAtDate
abbrev or_now : Option ℕ → ℕ → ℕ
or_now none now = now
or_now (some at) now = at

abbrev pub commit_mailbox : Commit → Option ℕ → MailboxRow → MailboxRow
commit_mailbox commit initialized_at row = record (without_lease row) {
  cursor = commit.next_cursor;
  initialized_at = some (or_now initialized_at commit.synced_at);
  last_error_code = none;
  last_error_message = none;
  last_error_occurred_at = none;
  last_error_retryable = none;
  last_successful_sync_at = some commit.synced_at;
  sync_state = MailboxSyncState.healthy;
  updated_at = commit.synced_at;
}

abbrev pub commit_run : Commit → ℕ → Option String → SyncRunRow → SyncRunRow
commit_run commit events previous_cursor run = record run {
  completed_at = some commit.synced_at;
  detail = none;
  events_emitted = some events;
  previous_cursor = previous_cursor;
  next_cursor = commit.next_cursor;
  status = SyncRunStatus.ended SyncRunOutcome.completed;
}

-- None where finalizeMailboxSyncCommit throws. `row` is the mailbox as the commit read it.
unfoldable pub finalize_mailbox_sync_commit :
    Commit → ℕ → MailboxRow → SyncTables → Option SyncTables
unfolding find? update_where
finalize_mailbox_sync_commit commit events row sync =
    elim (find? (mailbox_is commit.mailbox_id) sync.mailboxes) [
      | none ↦ none
      | some _ ↦ elim (find? (sync_run_is commit.sync_run_id) sync.sync_runs) [
        | none ↦ none
        | some _ ↦ some (record {
          mailboxes =
              update_where (mailbox_is commit.mailbox_id) (commit_mailbox commit row.initialized_at)
                sync.mailboxes;
          sync_runs =
              update_where (sync_run_is commit.sync_run_id) (commit_run commit events row.cursor)
                sync.sync_runs;
        })
      ]
    ]
