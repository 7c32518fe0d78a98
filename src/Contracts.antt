-- ===== src/Contracts.antt =====
-- packages/core/src/contracts.ts: the literals and resources that the packages exchange.
-- A timestamp is the number of milliseconds since the epoch (`Date.parse` of the ISO text).
use mailmon.Base.{ℕ, String, Bool, Option, List}

-- MailboxStatusSchema
pub data MailboxStatus : Type 0 where
  active reconnect_required disabled : MailboxStatus

-- MailboxSyncStateSchema
pub data MailboxSyncState : Type 0 where
  initializing healthy lagging failed : MailboxSyncState

-- MailboxWatchStateSchema
pub data MailboxWatchState : Type 0 where
  active expiring expired unhealthy : MailboxWatchState

-- ReplayStatusSchema
pub data ReplayStatus : Type 0 where
  queued running completed failed cancelled : ReplayStatus

-- SyncRunOutcomeSchema
pub data SyncRunOutcome : Type 0 where
  completed skipped_due_to_active_lease reconnect_required dispatch_retry_exhausted : SyncRunOutcome
  failed_after_lease_acquired lease_lost : SyncRunOutcome

pub record MailboxOperationalError : Type 0 where
  pub code : String
  pub message : String
  pub occurred_at : ℕ
  pub retryable : Bool

-- The fields of ProblemDetails that the program branches on or stores.
pub record ProblemDetails : Type 0 where
  pub code : String
  pub status : ℕ
  pub detail : String
  pub retryable : Bool

pub record StartedSyncRun : Type 0 where
  pub sync_run_id : String
  pub mailbox_id : String
  pub started_at : ℕ

pub record CompletedSyncRun : Type 0 where
  pub sync_run_id : String
  pub mailbox_id : String
  pub completed_at : ℕ
  pub status : SyncRunOutcome
  pub events_emitted : ℕ
  pub next_cursor : Option String
  pub detail : Option String

-- PreparedWebhookDelivery, without the endpoint's address and the event, which only `send` reads.
pub record PreparedWebhookDelivery : Type 0 where
  pub delivery_id : String
  pub attempt_count : ℕ
  pub processing_started_at : ℕ

pub record WebhookDeliverySendFailure : Type 0 where
  pub code : String
  pub message : String
  pub retryable : Bool

-- CompletedWebhookDeliveryAttempt["state"]
pub data AttemptState : Type 0 where
  pending delivered failed : AttemptState

pub record CompletedWebhookDeliveryAttempt : Type 0 where
  pub delivery_id : String
  pub attempt_count : ℕ
  pub processing_started_at : ℕ
  pub state : AttemptState
  pub completed_at : ℕ
  pub next_attempt_at : Option ℕ
  pub response_status_code : Option ℕ
  pub error_code : Option String
  pub error_message : Option String
  pub retryable : Option Bool

-- ProcessWebhookDeliveryResult["status"]
pub data ProcessStatus : Type 0 where
  delivered failed noop retry_exhausted scheduled_for_retry : ProcessStatus

pub record ProcessWebhookDeliveryResult : Type 0 where
  pub delivery_id : String
  pub status : ProcessStatus
  pub attempt_count : Option ℕ
  pub next_attempt_at : Option ℕ

pub record WebhookDeliveryScheduleRequest : Type 0 where
  pub delivery_id : String
  pub not_before : ℕ

pub record CanonicalThreadRecord : Type 0 where
  pub id : String
  pub provider_thread_id : String
  pub subject : String
  pub last_message_at : ℕ

-- `from` is the pair of columns `from_name` and `from_email`.
pub record CanonicalMessageRecord : Type 0 where
  pub id : String
  pub thread_id : String
  pub provider_message_id : String
  pub provider_thread_id : String
  pub subject : String
  pub from_name : Option String
  pub from_email : String
  pub snippet : String
  pub received_at : ℕ
  pub label_ids : List String

pub record MailboxSyncSnapshot : Type 0 where
  pub threads : List CanonicalThreadRecord
  pub messages : List CanonicalMessageRecord
  pub deleted_provider_message_ids : List String

pub data MailboxEventType : Type 0 where
  message_created message_updated thread_updated : MailboxEventType

-- The data of a mailbox event: of a message, or of a thread.
pub data MailboxEventData : Type 0 where
  -- messageId, threadId, providerMessageId, providerThreadId, subject, snippet, receivedAt, labelIds
  message_data :
      String → String → String → String → String → String → ℕ → List String → MailboxEventData
  -- threadId, providerThreadId, subject, lastMessageAt
  thread_data : String → String → String → ℕ → MailboxEventData

-- MailboxEventEnvelope, whose schema version is always 1.
pub record MailboxEventEnvelope : Type 0 where
  pub id : String
  pub event_type : MailboxEventType
  pub occurred_at : ℕ
  pub workspace_id : String
  pub tenant_external_id : String
  pub mailbox_id : String
  pub event_data : MailboxEventData
