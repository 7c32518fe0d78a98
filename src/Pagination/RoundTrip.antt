-- ===== src/Pagination/RoundTrip.antt =====
-- What is encoded as a cursor is decoded again.
use mailmon.Base.{String, ◌≡◌, ◌≢◌, ◌∙◌, refl, ap, true, some, arith, unequal}
use mailmon.Base.Prefix.{starts_with-append, drop_prefix-append}
use mailmon.Json.{object, field, no_fields, text, Json, get_text, get}
use mailmon.Pagination.{
  is_canonical_iso_timestamp, Platform, decoded_cursor, encode_payload, payload_of,
  pagination_cursor_in, sync_run_cursor_in, encode_pagination_cursor, decode_pagination_cursor,
  encode_sync_run_pagination_cursor, decode_sync_run_pagination_cursor,
}

-- JSON.parse reads what JSON.stringify makes of the value.
abbrev pub Reads : Platform → Json → Type 0
Reads platform value = platform.parse (platform.stringify value) ≡ some value

-- The payload of a cursor whose timestamp stands under the key.
abbrev pub cursor_payload : String → String → String → Json
cursor_payload key id timestamp =
    object (field "id" (text id) (field key (text timestamp) no_fields))

module _ (platform : Platform)
    (from-to : (s : String) → platform.from_base64url (platform.to_base64url s) ≡ s) where
  payload_of-encode :
      (value : Json)
      → Reads platform value
      → payload_of platform (encode_payload platform value) ≡ some value
  payload_of-encode value reads =
      let encoded = platform.to_base64url (platform.stringify value) in
      rw (starts_with-append "cur_" encoded)
        (rw (drop_prefix-append "cur_" encoded) (rw (from-to (platform.stringify value)) reads))

  -- If base64url loses nothing and JSON.parse reads what JSON.stringify makes of the payload, then
  -- a cursor with a nonempty id and a canonical timestamp is decoded to itself, for pages of
  -- messages and threads and for pages of sync runs.
  pub decode-encode :
      (resource_type id timestamp : String)
      → Reads platform (cursor_payload "timestamp" id timestamp)
      → Reads platform (cursor_payload "startedAt" id timestamp)
      → id ≢ ""
      → is_canonical_iso_timestamp platform timestamp ≡ true
      → (decode_pagination_cursor platform resource_type
            (encode_pagination_cursor platform (record { id = id; timestamp = timestamp }))
          ≡ decoded_cursor record { id = id; timestamp = timestamp })
        × (decode_sync_run_pagination_cursor platform (
              encode_sync_run_pagination_cursor platform
                (record { id = id; started_at = timestamp }))
            ≡ decoded_cursor record { id = id; started_at = timestamp })
  unfolding decode_pagination_cursor encode_pagination_cursor decode_sync_run_pagination_cursor
      encode_sync_run_pagination_cursor get_text get
  decode-encode resource_type id timestamp reads reads_run named canonical = (
    ap (pagination_cursor_in platform resource_type) (payload_of-encode _ reads)
        ∙ ground (arith, named, canonical, unequal "timestamp" "id" refl),
    ap (sync_run_cursor_in platform) (payload_of-encode _ reads_run)
        ∙ ground (arith, named, canonical, unequal "startedAt" "id" refl),
  )
