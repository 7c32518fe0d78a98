-- ===== src/Codec/Jobs.antt =====
-- A mailbox sync job that is sent arrives.
use mailmon.Base.{unequal, String, ◌≡◌, ◌≢◌, refl, none, some, arith}
use mailmon.Codec.{
  Platform, EnvelopeMessages, accepted, create_mailbox_sync_job_data, encode_internal_json_payload,
  mailbox_sync_job_schema, decode_base64_json, decode_pub_sub_message_data,
  decode_mailbox_sync_worker_request, decode_mailbox_sync_dead_letter_request, worker_messages,
  dead_letter_messages,
}
use mailmon.Json.{Json, text, object, field, no_fields, get_text, get_record, get, is_record}

-- The envelope of a push with these data.
abbrev pub push_message : String → Json
push_message encoded = object (field "data" (text encoded) no_fields)

abbrev pub push_envelope : String → Json
push_envelope encoded = object (field "message" (push_message encoded) no_fields)

module _ (platform : Platform) where
  -- The job as the queue publishes it.
  abbrev pub published : String → Json
  published mailbox_id = push_envelope (
      platform.to_base64
        (encode_internal_json_payload platform (create_mailbox_sync_job_data mailbox_id)))

  envelope_of :
      (messages : EnvelopeMessages) (value : Json)
      → platform.parse (platform.stringify value) ≡ some value
      → platform.from_base64 (platform.to_base64 (platform.stringify value))
        ≡ platform.stringify value
      → platform.to_base64 (platform.stringify value) ≢ ""
      → decode_pub_sub_message_data platform messages
          (push_envelope (platform.to_base64 (platform.stringify value)))
        ≡ accepted record {
          decoded = value;
          message = push_message (platform.to_base64 (platform.stringify value));
          payload = push_envelope (platform.to_base64 (platform.stringify value));
        }
  unfolding decode_pub_sub_message_data decode_base64_json get_text get_record get is_record
  envelope_of messages value reads lossless nonempty = ground (arith, reads, lossless, nonempty)

  job_in_job :
      (mailbox_id : String)
      → platform.non_empty_string (text mailbox_id) ≡ some mailbox_id
      → mailbox_sync_job_schema platform (create_mailbox_sync_job_data mailbox_id) ≡ some mailbox_id
  unfolding mailbox_sync_job_schema get create_mailbox_sync_job_data
  job_in_job mailbox_id named = ground (arith, named)

  no_job_in_push :
      (encoded : String) → mailbox_sync_job_schema platform (push_envelope encoded) ≡ none
  unfolding mailbox_sync_job_schema get
  no_job_in_push encoded = ground (arith, unequal "message" "mailboxId" refl)

  -- If, for the JSON text of a job, JSON.parse reads what JSON.stringify wrote and base64 loses
  -- nothing and is not empty, and the schema of a nonempty string accepts every nonempty text, then a
  -- job for a mailbox with a nonempty id arrives as it was sent: posted directly, in a Pub/Sub push,
  -- and from the dead-letter topic.
  pub job-arrives :
      (mailbox_id : String)
      → platform.parse (platform.stringify (create_mailbox_sync_job_data mailbox_id))
        ≡ some (create_mailbox_sync_job_data mailbox_id)
      → platform.from_base64
          (platform.to_base64 (platform.stringify (create_mailbox_sync_job_data mailbox_id)))
        ≡ platform.stringify (create_mailbox_sync_job_data mailbox_id)
      → platform.to_base64 (platform.stringify (create_mailbox_sync_job_data mailbox_id)) ≢ ""
      → ((s : String) → s ≢ "" → platform.non_empty_string (text s) ≡ some s)
      → mailbox_id ≢ ""
      → (decode_mailbox_sync_worker_request platform (create_mailbox_sync_job_data mailbox_id)
          ≡ accepted mailbox_id)
        × (decode_mailbox_sync_worker_request platform (published mailbox_id) ≡ accepted mailbox_id)
        × (decode_mailbox_sync_dead_letter_request platform (published mailbox_id)
            ≡ accepted mailbox_id)
  unfolding decode_mailbox_sync_worker_request decode_mailbox_sync_dead_letter_request
      encode_internal_json_payload
  job-arrives mailbox_id reads lossless nonempty texts named =
      let job = create_mailbox_sync_job_data mailbox_id in
      let is_job = job_in_job mailbox_id (texts mailbox_id named) in
      (
        rw (is_job, decode_mailbox_sync_worker_request) refl,
        rw
            (
              no_job_in_push (platform.to_base64 (platform.stringify job)),
              decode_mailbox_sync_worker_request,
            )
            (rw (envelope_of worker_messages job reads lossless nonempty) (rw is_job refl)),
        rw
            (
              envelope_of dead_letter_messages job reads lossless nonempty,
              decode_mailbox_sync_dead_letter_request,
            )
            (rw is_job refl),
      )
