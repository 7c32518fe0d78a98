-- ===== src/Commit/Snapshot.antt =====
-- loadMessageRowsForCommit, applySnapshotThreads, applySnapshotMessages and applyMessageDeletions of
-- packages/db/src/persistence/mailbox-sync-commit.ts, on the tables.
use mailmon.Base.{
  ℕ, String, Bool, true, false, ◌&&◌, Option, none, some, List, [], ◌∷◌, ◌++◌, map, ◌==◌,
  if◌then◌else◌,
}
use mailmon.Base.Table.{find?, select_where, delete_where, upsert}
use mailmon.Base.Texts.{includes, distinct}
use mailmon.Canonical.{to_thread_insert, to_thread_update, to_message_insert, to_message_update}
use mailmon.Contracts.{CanonicalThreadRecord, CanonicalMessageRecord, MailboxSyncSnapshot}
use mailmon.Schema.{ThreadRow, MessageRow, message_is, thread_is}
use mailmon.Commit.State.{CommitTables}

-- A `Map` built from the rows: the last row of a key stays.
unfoldable pub find_last {ℓ} : {A : Type ℓ} → (A → Bool) → List A → Option A
find_last p [] = none
find_last p (x ∷ xs) = elim (find_last p xs) [
  | some y ↦ some y
  | none ↦ if p x then some x else none
]

-- The rows of a mailbox whose message ids are listed; the source skips the query of an empty list.
unfoldable pub load_message_rows : String → List String → List MessageRow → List MessageRow
unfolding select_where includes
load_message_rows mailbox_id ids messages =
    select_where (λ row. row.mailbox_id == mailbox_id && includes row.provider_message_id ids)
      messages

-- `deleted` and `existing` are the two results of loadMessageRowsForCommit.
unfoldable pub get_affected_provider_thread_ids :
    MailboxSyncSnapshot → (deleted existing : List MessageRow) → List String
unfolding distinct
get_affected_provider_thread_ids snapshot deleted existing = distinct (
    map (λ (t : CanonicalThreadRecord). t.provider_thread_id) snapshot.threads
    ++ map (λ (m : CanonicalMessageRecord). m.provider_thread_id) snapshot.messages
    ++ map (λ (m : MessageRow). m.provider_thread_id) existing
    ++ map (λ (m : MessageRow). m.provider_thread_id) deleted)

unfoldable pub load_existing_threads : String → List String → List ThreadRow → List ThreadRow
unfolding select_where includes
load_existing_threads mailbox_id ids threads =
    select_where (λ row. row.mailbox_id == mailbox_id && includes row.provider_thread_id ids)
      threads

abbrev pub is_none {ℓ} : {A : Type ℓ} → Option A → Bool
is_none none = true
is_none (some x) = false

abbrev pub upsert_thread : ℕ → String → CanonicalThreadRecord → List ThreadRow → List ThreadRow
upsert_thread now mailbox_id thread threads =
    upsert (thread_is mailbox_id thread.provider_thread_id) (to_thread_insert now mailbox_id thread)
      (to_thread_update now thread) threads

abbrev pub upsert_message : ℕ → String → CanonicalMessageRecord → List MessageRow → List MessageRow
upsert_message now mailbox_id message messages =
    upsert (message_is mailbox_id message.provider_message_id)
      (to_message_insert now mailbox_id message) (to_message_update now message) messages

unfoldable pub apply_snapshot_threads :
    ℕ → String → List CanonicalThreadRecord → List ThreadRow → List ThreadRow
unfolding upsert
apply_snapshot_threads now mailbox_id [] rows = rows
apply_snapshot_threads now mailbox_id (thread ∷ threads) rows =
    apply_snapshot_threads now mailbox_id threads (upsert_thread now mailbox_id thread rows)

-- The messages table after applySnapshotMessages.
unfoldable pub apply_snapshot_messages :
    ℕ → String → List CanonicalMessageRecord → List MessageRow → List MessageRow
unfolding upsert
apply_snapshot_messages now mailbox_id [] rows = rows
apply_snapshot_messages now mailbox_id (message ∷ messages) rows =
    apply_snapshot_messages now mailbox_id messages (upsert_message now mailbox_id message rows)

-- Without deletions the threads are left alone, orphans included.
unfoldable pub apply_message_deletions : String → List String → CommitTables → CommitTables
unfolding delete_where includes find?
apply_message_deletions mailbox_id [] db = db
apply_message_deletions mailbox_id (id ∷ ids) db =
    let kept =
      delete_where
        (λ (row : MessageRow).
          row.mailbox_id == mailbox_id && includes row.provider_message_id (id ∷ ids))
        db.messages in
    record db {
      messages = kept;
      threads =
          delete_where
            (λ (thread : ThreadRow).
              thread.mailbox_id == mailbox_id
              && is_none (find? (λ (row : MessageRow). row.thread_id == thread.id) kept))
            db.threads;
    }
