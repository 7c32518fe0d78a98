-- ===== src/MailboxEvents.antt =====
-- packages/db/src/persistence/mailbox-event-mappers.ts: the mailbox events of a commit.
-- The digest of node:crypto is the parameter `sha256_hex`, a function of the text that it is fed.
use Prim.Native.String.{◌++◌}
use mailmon.Base.{ℕ, String}
use mailmon.Canonical.{normalize_label_ids}
use mailmon.Contracts.{
  CanonicalThreadRecord, CanonicalMessageRecord, MailboxEventType, MailboxEventData,
  MailboxEventEnvelope, message_data, thread_data,
}
use mailmon.Schema.{MailboxEventRow}

abbrev event_type_text : MailboxEventType → String
event_type_text MailboxEventType.message_created = "message.created"
event_type_text MailboxEventType.message_updated = "message.updated"
event_type_text MailboxEventType.thread_updated = "thread.updated"

-- MailboxCommitIdentity, with `syncedAt` as `occurredAt`.
pub record MailboxCommitIdentity : Type 0 where
  pub mailbox_id : String
  pub sync_run_id : String
  pub synced_at : ℕ
  pub tenant_external_id : String
  pub workspace_id : String

abbrev to_mailbox_message_event_data : CanonicalMessageRecord → MailboxEventData
to_mailbox_message_event_data message =
    message_data message.id message.thread_id message.provider_message_id message.provider_thread_id
      message.subject message.snippet message.received_at (normalize_label_ids message.label_ids)

abbrev to_mailbox_thread_event_data : CanonicalThreadRecord → MailboxEventData
to_mailbox_thread_event_data thread =
    thread_data thread.id thread.provider_thread_id thread.subject thread.last_message_at

module _ (sha256_hex : String → String) where
  unfoldable pub create_stable_mailbox_event_id :
      String → MailboxEventType → String → String → String
  create_stable_mailbox_event_id sync_run_id event_type mailbox_id resource_id =
      "evt_"
      ++ sha256_hex (
          sync_run_id
          ++ "\0"
          ++ event_type_text event_type
          ++ "\0"
          ++ mailbox_id
          ++ "\0"
          ++ resource_id)

  abbrev mailbox_event :
      MailboxCommitIdentity → MailboxEventType → String → MailboxEventData → MailboxEventEnvelope
  mailbox_event identity event_type resource_id event_data = record {
    id =
        create_stable_mailbox_event_id identity.sync_run_id event_type identity.mailbox_id
          resource_id;
    event_type = event_type;
    occurred_at = identity.synced_at;
    workspace_id = identity.workspace_id;
    tenant_external_id = identity.tenant_external_id;
    mailbox_id = identity.mailbox_id;
    event_data = event_data;
  }

  unfoldable pub create_message_created_mailbox_event :
      MailboxCommitIdentity → CanonicalMessageRecord → MailboxEventEnvelope
  create_message_created_mailbox_event identity message =
      mailbox_event identity MailboxEventType.message_created message.id
        (to_mailbox_message_event_data message)

  unfoldable pub create_message_updated_mailbox_event :
      MailboxCommitIdentity → CanonicalMessageRecord → MailboxEventEnvelope
  create_message_updated_mailbox_event identity message =
      mailbox_event identity MailboxEventType.message_updated message.id
        (to_mailbox_message_event_data message)

  unfoldable pub create_thread_updated_mailbox_event :
      MailboxCommitIdentity → CanonicalThreadRecord → MailboxEventEnvelope
  create_thread_updated_mailbox_event identity thread =
      mailbox_event identity MailboxEventType.thread_updated thread.id
        (to_mailbox_thread_event_data thread)

abbrev pub to_mailbox_event_insert : MailboxEventEnvelope → MailboxEventRow
to_mailbox_event_insert event = record {
  id = event.id;
  mailbox_id = event.mailbox_id;
  event_type = event.event_type;
  occurred_at = event.occurred_at;
  payload = event;
}
