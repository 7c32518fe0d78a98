-- ===== src/Codec.antt =====
-- packages/core/src/internal-message-codec.ts: the messages that the parts of the program send each
-- other, directly or in the envelope of a Pub/Sub push, with their schemas of
-- packages/core/src/contracts.ts. JSON, base64 and the effect library's schema of a nonempty string
-- are parameters.
pub mod Jobs
use mailmon.Base.{ℕ, String, Option, none, some, ◌==◌, if◌then◌else◌}
use mailmon.Json.{get, Json, text, number, object, field, no_fields, get_text, get_record}

-- ControlJobKindSchema
pub data ControlJobKind : Type 0 where
  renew_watches dispatch_replays repair_mailboxes recover_stuck_syncs : ControlJobKind
  recover_webhook_deliveries cleanup : ControlJobKind

-- WebhookDeliveryScheduleRequest, with the time as the text that was sent.
pub record ScheduleMessage : Type 0 where
  pub delivery_id : String
  pub not_before : String

-- The history id of a notification: a text, or a number as JavaScript prints it.
pub data HistoryId : Type 0 where
  history_text : String → HistoryId
  history_number : String → HistoryId

pub record NotificationData : Type 0 where
  pub email_address : String
  pub history_id : HistoryId

pub record GmailPushNotification : Type 0 where
  pub email_address : String
  pub history_id : String
  pub message_id : Option String
  pub subscription : Option String

-- InternalMessageDecodeResult
pub data Decoded (A : Type 0) : Type 0 where
  refused : (error : String) → Decoded A
  accepted : A → Decoded A

-- What the program uses of the platform and of the schema library: `none` where they throw.
pub record Platform : Type 0 where
  pub stringify : Json → String
  pub parse : String → Option Json
  pub to_base64 : String → String
  pub from_base64 : String → String
  -- decodeUnknownSync(Schema.NonEmptyString)
  pub non_empty_string : Json → Option String

pub record EnvelopeMessages : Type 0 where
  pub envelope_message : String
  pub missing_data_message : String
  pub invalid_json_message : String

pub record Envelope : Type 0 where
  pub decoded : Json
  pub message : Json
  pub payload : Json

unfoldable pub create_mailbox_sync_job_data : String → Json
create_mailbox_sync_job_data mailbox_id = object (field "mailboxId" (text mailbox_id) no_fields)

abbrev normalize_gmail_history_id : HistoryId → String
normalize_gmail_history_id (history_text id) = id
normalize_gmail_history_id (history_number id) = id

-- A property that is a nonempty string, or null.
abbrev nonempty_or_null : Option String → Option String
nonempty_or_null none = none
nonempty_or_null (some s) = if s == "" then none else some s

abbrev or_refused : {A : Type 0} → String → Option A → Decoded A
or_refused error none = refused error
or_refused error (some value) = accepted value

abbrev pub worker_messages : EnvelopeMessages
worker_messages = record {
  envelope_message = "Expected a mailbox-scoped sync payload or a Pub/Sub push envelope.";
  missing_data_message =
      "Expected Pub/Sub message.data to contain a base64-encoded mailbox sync payload.";
  invalid_json_message = "Pub/Sub message.data was not valid base64-encoded JSON.";
}

abbrev pub dead_letter_messages : EnvelopeMessages
dead_letter_messages = record {
  envelope_message = "Expected a Pub/Sub dead-letter push envelope with a message object.";
  missing_data_message =
      "Expected Pub/Sub dead-letter message.data to contain a base64-encoded mailbox sync payload.";
  invalid_json_message = "Pub/Sub dead-letter message.data was not valid base64-encoded JSON.";
}

abbrev notification_messages : EnvelopeMessages
notification_messages = record {
  envelope_message = "Expected a Pub/Sub push envelope with a message object.";
  missing_data_message =
      "Expected Pub/Sub message.data to contain a base64-encoded Gmail notification.";
  invalid_json_message = "Pub/Sub message.data was not valid base64-encoded JSON.";
}

-- ControlJobKindSchema as a decoder
abbrev control_job_kind : String → Option ControlJobKind
control_job_kind kind =
    if kind == "renew_watches"
    then some ControlJobKind.renew_watches
    else if kind == "dispatch_replays"
    then some ControlJobKind.dispatch_replays
    else if kind == "repair_mailboxes"
    then some ControlJobKind.repair_mailboxes
    else if kind == "recover_stuck_syncs"
    then some ControlJobKind.recover_stuck_syncs
    else if kind == "recover_webhook_deliveries"
    then some ControlJobKind.recover_webhook_deliveries
    else if kind == "cleanup"
    then some ControlJobKind.cleanup
    else none

abbrev control_job_kind_of : Option String → Option ControlJobKind
control_job_kind_of none = none
control_job_kind_of (some kind) = control_job_kind kind

-- ControlJobDispatchRequestSchema as a decoder
unfoldable pub control_job_schema : Json → Option ControlJobKind
unfolding get_text
control_job_schema value = control_job_kind_of (get_text "kind" value)

abbrev schedule_message : Option String → Option String → Option ScheduleMessage
schedule_message (some delivery_id) (some not_before) =
    some record { delivery_id = delivery_id; not_before = not_before }
schedule_message _ _ = none

abbrev notification_data : Option String → Option HistoryId → Option NotificationData
notification_data (some email_address) (some history_id) =
    some record { email_address = email_address; history_id = history_id }
notification_data _ _ = none

-- The schemas that use Schema.NonEmptyString, as decoders. Schema.Struct decodes its fields by name
-- and takes an object with further ones.
module _ (platform : Platform) where
  abbrev non_empty_field : Option Json → Option String
  non_empty_field none = none
  non_empty_field (some value) = platform.non_empty_string value

  abbrev text_history_id : Option String → Option HistoryId
  text_history_id none = none
  text_history_id (some id) = some (history_text id)

  -- Schema.Union([Schema.NonEmptyString, Schema.Number])
  abbrev history_id_in : Option Json → Option HistoryId
  history_id_in (some (number digits)) = some (history_number digits)
  history_id_in value = text_history_id (non_empty_field value)

  unfoldable pub mailbox_sync_job_schema : Json → Option String
  unfolding get
  mailbox_sync_job_schema value = non_empty_field (get "mailboxId" value)

  unfoldable pub schedule_request_schema : Json → Option ScheduleMessage
  unfolding get
  schedule_request_schema value =
      schedule_message (non_empty_field (get "deliveryId" value))
        (non_empty_field (get "notBefore" value))

  unfoldable pub notification_schema : Json → Option NotificationData
  unfolding get
  notification_schema value =
      notification_data (non_empty_field (get "emailAddress" value))
        (history_id_in (get "historyId" value))

module _ (platform : Platform) where
  unfoldable pub encode_internal_json_payload : Json → String
  encode_internal_json_payload value = platform.stringify value

  unfoldable pub decode_base64_json : String → Option Json
  decode_base64_json encoded = platform.parse (platform.from_base64 encoded)

  abbrev enveloped : EnvelopeMessages → Json → Json → Option Json → Decoded Envelope
  enveloped messages payload message none = refused messages.invalid_json_message
  enveloped messages payload message (some decoded) =
      accepted record { decoded = decoded; message = message; payload = payload }

  abbrev envelope_data_of : EnvelopeMessages → Json → Json → Option String → Decoded Envelope
  envelope_data_of messages payload message none = refused messages.missing_data_message
  envelope_data_of messages payload message (some encoded) =
      if encoded == ""
      then refused messages.missing_data_message
      else enveloped messages payload message (decode_base64_json encoded)

  abbrev envelope_message_of : EnvelopeMessages → Json → Option Json → Decoded Envelope
  envelope_message_of messages payload none = refused messages.envelope_message
  envelope_message_of messages payload (some message) =
      envelope_data_of messages payload message (get_text "data" message)

  unfoldable pub decode_pub_sub_message_data : EnvelopeMessages → Json → Decoded Envelope
  unfolding get_text get_record decode_base64_json
  decode_pub_sub_message_data messages payload =
      envelope_message_of messages payload (get_record "message" payload)

  unfoldable pub decode_webhook_delivery_schedule_request : Json → Decoded ScheduleMessage
  unfolding schedule_request_schema
  decode_webhook_delivery_schedule_request payload =
      or_refused
        "Expected a webhook delivery payload with non-empty deliveryId and notBefore fields."
        (schedule_request_schema platform payload)

  unfoldable pub decode_control_job_dispatch_request : Json → Decoded ControlJobKind
  unfolding control_job_schema
  decode_control_job_dispatch_request payload =
      or_refused "Expected a control job payload with a supported kind."
        (control_job_schema payload)

  abbrev job_in : String → Decoded Envelope → Decoded String
  job_in error (refused message) = refused message
  job_in error (accepted envelope) =
      or_refused error (mailbox_sync_job_schema platform envelope.decoded)

  unfoldable pub decode_mailbox_sync_worker_request : Json → Decoded String
  unfolding mailbox_sync_job_schema decode_pub_sub_message_data
  decode_mailbox_sync_worker_request payload = elim (mailbox_sync_job_schema platform payload) [
    | some job ↦ accepted job
    | none ↦
        job_in "Expected mailbox sync data to include a non-empty mailboxId field."
          (decode_pub_sub_message_data worker_messages payload)
  ]

  unfoldable pub decode_mailbox_sync_dead_letter_request : Json → Decoded String
  unfolding mailbox_sync_job_schema decode_pub_sub_message_data
  decode_mailbox_sync_dead_letter_request payload =
      job_in "Expected dead-lettered mailbox sync data to include a non-empty mailboxId field."
        (decode_pub_sub_message_data dead_letter_messages payload)

  abbrev notification_of : Envelope → Option NotificationData → Decoded GmailPushNotification
  notification_of envelope none =
      refused
        "Expected Gmail notification data to include non-empty emailAddress and historyId fields."
  notification_of envelope (some found) = accepted record {
    email_address = found.email_address;
    history_id = normalize_gmail_history_id found.history_id;
    message_id = nonempty_or_null (get_text "messageId" envelope.message);
    subscription = nonempty_or_null (get_text "subscription" envelope.payload);
  }

  abbrev notification_in : Decoded Envelope → Decoded GmailPushNotification
  notification_in (refused message) = refused message
  notification_in (accepted envelope) =
      notification_of envelope (notification_schema platform envelope.decoded)

  unfoldable pub decode_gmail_push_notification_pub_sub_envelope :
      Json → Decoded GmailPushNotification
  unfolding notification_schema decode_pub_sub_message_data get_text
  decode_gmail_push_notification_pub_sub_envelope payload =
      notification_in (decode_pub_sub_message_data notification_messages payload)
