-- ===== src/Commit/Events.antt =====
-- The mailbox events of packages/db/src/persistence/mailbox-sync-commit.ts, and applyRecalculatedThreads.
use mailmon.Base.{ℕ, String, none, some, List, [], ◌∷◌, ◌==◌, if◌then◌else◌}
use mailmon.Base.Table.{find?, upsert, insert_unless}
use mailmon.Canonical.{is_same_canonical_message, is_same_canonical_thread}
use mailmon.Contracts.{CanonicalThreadRecord, CanonicalMessageRecord, MailboxEventEnvelope}
use mailmon.MailboxEvents.{
  MailboxCommitIdentity, create_message_created_mailbox_event, create_message_updated_mailbox_event,
  create_thread_updated_mailbox_event, to_mailbox_event_insert,
}
use mailmon.Schema.{ThreadRow, MessageRow, MailboxEventRow}
use mailmon.Commit.Snapshot.{find_last, upsert_thread}

-- INSERT … VALUES (all events) ON CONFLICT (id) DO NOTHING
unfoldable pub insert_mailbox_events :
    List MailboxEventEnvelope → List MailboxEventRow → List MailboxEventRow
unfolding insert_unless
insert_mailbox_events [] rows = rows
insert_mailbox_events (event ∷ events) rows = insert_mailbox_events events (
    insert_unless (λ (row : MailboxEventRow). row.id == event.id) (to_mailbox_event_insert event)
      rows)

module _ (sha256_hex : String → String) where
  -- The events of applySnapshotMessages.
  unfoldable pub message_events :
      MailboxCommitIdentity
      → List MessageRow
      → List CanonicalMessageRecord
      → List MailboxEventEnvelope
  unfolding find_last is_same_canonical_message create_message_created_mailbox_event
      create_message_updated_mailbox_event
  message_events identity existing [] = []
  message_events identity existing (message ∷ messages) =
      let later = message_events identity existing messages in
      elim (find_last (λ (row : MessageRow). row.provider_message_id == message.provider_message_id)
        existing) [
          | none ↦ create_message_created_mailbox_event sha256_hex identity message ∷ later
          | some row ↦
              if is_same_canonical_message row message
              then later
              else create_message_updated_mailbox_event sha256_hex identity message ∷ later
        ]

  -- applyRecalculatedThreads: the events and the table.
  unfoldable pub apply_recalculated_threads :
      ℕ
      → MailboxCommitIdentity
      → (existing : List ThreadRow) (recalculated : List CanonicalThreadRecord) → List String
      → List ThreadRow
      → List MailboxEventEnvelope × List ThreadRow
  unfolding find? find_last upsert is_same_canonical_thread create_thread_updated_mailbox_event
  apply_recalculated_threads now identity existing recalculated [] rows = ([], rows)
  apply_recalculated_threads now identity existing recalculated (id ∷ ids) rows =
      elim (find? (λ (t : CanonicalThreadRecord). t.provider_thread_id == id) recalculated) [
        | none ↦ apply_recalculated_threads now identity existing recalculated ids rows
        | some thread ↦
            let (events, after) =
              apply_recalculated_threads now identity existing recalculated ids
                (upsert_thread now identity.mailbox_id thread rows) in
            elim (find_last (λ (row : ThreadRow). row.provider_thread_id == id) existing) [
              | none ↦
                  (create_thread_updated_mailbox_event sha256_hex identity thread ∷ events, after)
              | some row ↦ if is_same_canonical_thread row thread then (events, after) else (
                create_thread_updated_mailbox_event sha256_hex identity thread ∷ events,
                after,
              )
            ]
      ]
