-- ===== src/Commit.antt =====
-- packages/db/src/persistence/mailbox-sync-commit.ts: the transaction that writes what a sync run
-- fetched. The clock `now` stands still in a transaction. `text_before` is the database's order of
-- texts and `sha256_hex` the digest. A row that breaks a primary key or a foreign key, which the
-- database would refuse, is not refused here.
pub mod State
pub mod Snapshot
pub mod Threads
pub mod Events
pub mod Guarded
pub mod Finalized
pub mod Fencing
pub mod Cursors
pub mod Contents
pub mod Stored
pub mod Silent
use Prim.Native.String.{◌++◌ as append}
use mailmon.Base.{
  ℕ, String, Bool, true, false, not, ◌&&◌, ◌||◌, Option, none, some, List, [], ◌∷◌, ◌++◌, map, ltb,
  eqb, ◌==◌, is_text, if◌then◌else◌, length,
}
use mailmon.Base.Sort.{sort_by}
use mailmon.Base.Table.{find?, select_where, update_where, delete_where, upsert, insert_unless}
use mailmon.Base.Texts.{includes, distinct}
use mailmon.Canonical.{
  to_thread_insert, to_thread_update, to_message_insert, to_message_update,
  to_canonical_thread_from_message_row, is_same_canonical_message, is_same_canonical_thread,
}
use mailmon.Contracts.{
  CanonicalThreadRecord, CanonicalMessageRecord, MailboxSyncSnapshot, MailboxEventEnvelope,
  ProblemDetails, MailboxSyncState, SyncRunOutcome,
}
use mailmon.Cursor.{is_mailbox_cursor_regression}
use mailmon.Lease.{lease_runs}
use mailmon.MailboxEvents.{
  MailboxCommitIdentity, create_message_created_mailbox_event, create_message_updated_mailbox_event,
  create_thread_updated_mailbox_event, to_mailbox_event_insert,
}
use mailmon.Schema.{
  MailboxRow, SyncRunRow, SyncRunStatus, SyncTables, ThreadRow, MessageRow, MailboxEventRow,
  mailbox_is, sync_run_is, message_is, thread_is, without_lease,
}
use mailmon.Commit.State.{
  CommitTables, Commit, CommitResult, committed, failed, threw, guard_active_lease,
  guard_cursor_progression, finalize_mailbox_sync_commit,
}
use mailmon.Commit.Snapshot.{
  load_message_rows, get_affected_provider_thread_ids, load_existing_threads,
  apply_snapshot_threads, apply_snapshot_messages, apply_message_deletions,
}
use mailmon.Commit.Threads.{recalculate_threads}
use mailmon.Commit.Events.{insert_mailbox_events, message_events, apply_recalculated_threads}

module _ (text_before : String → String → Bool) (sha256_hex : String → String) where
  -- The statements between the guards and the finalization: the events, and the tables they leave.
  unfoldable pub write_rows :
      ℕ
      → Commit
      → (workspace_id tenant_external_id : String) → CommitTables
      → List MailboxEventEnvelope × CommitTables
  unfolding load_message_rows get_affected_provider_thread_ids load_existing_threads
      apply_snapshot_threads apply_snapshot_messages apply_message_deletions insert_mailbox_events
      recalculate_threads message_events apply_recalculated_threads
  write_rows now commit workspace_id tenant_external_id db =
      let snapshot = commit.snapshot in
      let identity : MailboxCommitIdentity = record {
        mailbox_id = commit.mailbox_id;
        sync_run_id = commit.sync_run_id;
        synced_at = commit.synced_at;
        tenant_external_id = tenant_external_id;
        workspace_id = workspace_id;
      } in
      let deleted =
        load_message_rows commit.mailbox_id snapshot.deleted_provider_message_ids db.messages in
      let existing =
        load_message_rows commit.mailbox_id
          (distinct (map (λ (m : CanonicalMessageRecord). m.provider_message_id) snapshot.messages))
          db.messages in
      let affected = get_affected_provider_thread_ids snapshot deleted existing in
      let existing_threads = load_existing_threads commit.mailbox_id affected db.threads in
      let applied : CommitTables = record db {
        threads = apply_snapshot_threads now commit.mailbox_id snapshot.threads db.threads;
        messages = apply_snapshot_messages now commit.mailbox_id snapshot.messages db.messages;
      } in
      let pruned =
        apply_message_deletions commit.mailbox_id snapshot.deleted_provider_message_ids applied in
      let recalculated =
        recalculate_threads text_before commit.mailbox_id affected pruned.messages in
      let (thread_events, threads) =
        apply_recalculated_threads sha256_hex now identity existing_threads recalculated affected
          pruned.threads in
      let events = message_events sha256_hex identity existing snapshot.messages ++ thread_events in
      (
        events,
        record pruned {
          threads = threads;
          mailbox_events = insert_mailbox_events events db.mailbox_events;
        },
      )

  -- The transaction after its guards, on the mailbox's row and its identity.
  unfoldable pub write_commit :
      ℕ
      → Commit
      → MailboxRow
      → (workspace_id tenant_external_id : String) → CommitTables
      → CommitResult × CommitTables
  unfolding write_rows finalize_mailbox_sync_commit
  write_commit now commit row workspace_id tenant_external_id db =
      let (events, written) = write_rows now commit workspace_id tenant_external_id db in
      elim (finalize_mailbox_sync_commit commit (length events) row db.sync) [
        | none ↦ (threw, db)
        | some sync ↦ (
          committed true (map (λ (event : MailboxEventEnvelope). event.id) events),
          record written { sync = sync },
        )
      ]

  -- The transaction on the mailbox's row.
  unfoldable pub commit_to_row :
      ℕ → Commit → MailboxRow → CommitTables → CommitResult × CommitTables
  unfolding guard_cursor_progression write_commit
  commit_to_row now commit row db =
      if guard_active_lease row commit.lease_owner_id now
      then elim row.workspace_id [
        | none ↦ (threw, db)
        | some workspace_id ↦ elim row.tenant_external_id [
          | none ↦ (threw, db)
          | some tenant_external_id ↦ elim (guard_cursor_progression commit row) [
            | some problem ↦ (failed problem, db)
            | none ↦ write_commit now commit row workspace_id tenant_external_id db
          ]
        ]
      ]
      else (committed false [], db)

  unfoldable pub apply_mailbox_sync_commit : ℕ → Commit → CommitTables → CommitResult × CommitTables
  unfolding find? commit_to_row
  apply_mailbox_sync_commit now commit db =
      elim (find? (mailbox_is commit.mailbox_id) db.sync.mailboxes) [
        | none ↦ (committed false [], db)
        | some row ↦ commit_to_row now commit row db
      ]
