-- ===== src/Examples/Messages.antt =====
-- Cursors and messages with a platform that writes texts as they are.
use mailmon.Base.{
  arith, ◌==◌, if◌then◌else◌, String, String_discrete, ◌≡◌, refl, Option, none, some, unequal,
}
use mailmon.Codec.{
  accepted, create_mailbox_sync_job_data, encode_internal_json_payload,
  decode_mailbox_sync_worker_request, decode_mailbox_sync_dead_letter_request,
}
use mailmon.Codec
use mailmon.Codec.Jobs.{published, job-arrives}
use mailmon.Json.{Json, text, get_text, get}
use mailmon.Pagination
use mailmon.Pagination.{
  decoded_cursor, encode_pagination_cursor, decode_pagination_cursor,
  encode_sync_run_pagination_cursor, decode_sync_run_pagination_cursor,
}
use mailmon.Pagination.RoundTrip.{cursor_payload, decode-encode}

abbrev written : Option String → String
written none = "startedAt"
written (some timestamp) = "timestamp"

abbrev cursor_platform : Pagination.Platform
cursor_platform = record {
  stringify = λ value. written (get_text "timestamp" value);
  parse = λ key. some (cursor_payload key "m" "t");
  to_base64url = λ s. s;
  from_base64url = λ s. s;
  iso_string_of = λ s. some s;
}

decode-encode_example :
    (decode_pagination_cursor cursor_platform "messages"
        (encode_pagination_cursor cursor_platform (record { id = "m"; timestamp = "t" }))
      ≡ decoded_cursor record { id = "m"; timestamp = "t" })
    × (decode_sync_run_pagination_cursor cursor_platform (
          encode_sync_run_pagination_cursor cursor_platform (record { id = "m"; started_at = "t" }))
        ≡ decoded_cursor record { id = "m"; started_at = "t" })
unfolding get_text get String_discrete
decode-encode_example =
    decode-encode cursor_platform (λ s. refl) "messages" "m" "t" refl refl (unequal "m" "" refl)
      refl

abbrev non_empty : Json → Option String
non_empty (text s) = if s == "" then none else some s
non_empty value = none

abbrev job_platform : Codec.Platform
job_platform = record {
  stringify = λ value. "j";
  parse = λ s. some (create_mailbox_sync_job_data "m");
  to_base64 = λ s. s;
  from_base64 = λ s. s;
  non_empty_string = non_empty;
}

job-arrives_example :
    (decode_mailbox_sync_worker_request job_platform (create_mailbox_sync_job_data "m")
      ≡ accepted "m")
    × (decode_mailbox_sync_worker_request job_platform (published job_platform "m") ≡ accepted "m")
    × (decode_mailbox_sync_dead_letter_request job_platform (published job_platform "m")
        ≡ accepted "m")
unfolding get_text get String_discrete create_mailbox_sync_job_data encode_internal_json_payload
job-arrives_example =
    job-arrives job_platform "m" refl refl (unequal "j" "" refl) (λ s named. ground (arith, named))
      (unequal "m" "" refl)
